-- ===== src/Outbox/GivesUp.antt =====
-- The outbox gives up on a command to start a run only once that run is no longer live.
use cliqhub_core.Prelude.{String, false, ◌≡◌, In}
use cliqhub_core.Outbox.{Run, Store}
use cliqhub_core.Outbox.Reply.{Reply}
use cliqhub_core.Outbox.Runs.{is_live}
use cliqhub_core.Outbox.Delivery.{Delivery}

-- No run of this id is live.
abbrev pub NotLive : String → Store → Type 0
NotLive id s = (r : Run) → In r s.runs → r.run_id ≡ id → is_live r ≡ false
