-- ===== src/Outbox/Bounded.antt =====
-- How many deliveries of a command can fail before the poll leaves it alone.
use cliqhub_core.Prelude.{ℕ, true, false, ◌≡◌, In, is_none}
use Prim.Native.Nat.{suc}
use cliqhub_core.Outbox.{Entry, Store}
use cliqhub_core.Outbox.Delivery.{is_pending, is_backing_off, Delivery, deliver_entry}
use cliqhub_core.Outbox.Rows.{Only}

-- A number of deliveries of the command, one after the other, each of the row that the last one left,
-- picked while pending and past its backoff, and each leaving it undelivered. Between two of them the
-- tables may change in any way that leaves the command's row alone.
pub data FailedTimes : ℕ → Entry → Type 0 where
  not_yet : (e : Entry) → FailedTimes 0 e
  once_more :
      (n : ℕ) (d : Delivery) (e : Entry) (s : Store) (x : Entry)
      → Only e s.outbox
      → is_pending d.checked_at e ≡ true
      → is_backing_off d.checked_at e ≡ false
      → In x (deliver_entry d e s).outbox
      → x.tx_id ≡ e.tx_id
      → is_none x.delivered_at ≡ true
      → FailedTimes n x
      → FailedTimes (suc n) e
