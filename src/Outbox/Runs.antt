-- ===== src/Outbox/Runs.antt =====
-- The runs that a command belongs to: `fail_refused_execute` and the first part of
-- `_handle_daemon_run_not_found` of command_outbox.service.ts, and `RunService.fail_if_live` of
-- src/services/run.service.ts.
use text.Mathlib.Text.{◌==◌}
use cliqhub_core.Prelude.{
  ℕ, String, Bool, true, false, ◌&&◌, ◌||◌, [], ◌∷◌, ◌++◌, Option, none, some, if◌then◌else◌, any,
  trim, is_empty, concat,
}
use cliqhub_core.Json.{Json, str, get_prop}
use cliqhub_core.Outbox.{Entry, Run, run_failed, hugs_cancelled, Store}
use cliqhub_core.Prelude.{update_where}

abbrev pub is_live : Run → Bool
is_live r = r.state == "running" || r.state == "awaiting_input"

abbrev pub live_run : String → Run → Bool
live_run id r = r.run_id == id && is_live r

abbrev pub failed_run : ℕ → String → Run → Run
failed_run now reason r = record r {
  state = "failed";
  completed_at = some now;
  run_error = some reason;
  lease_expires_at = none;
}

-- Whether a run was failed is the result of the source; no caller in the outbox reads it.
unfoldable pub fail_if_live : ℕ → String → String → Store → Store × Bool
unfolding update_where
fail_if_live now id reason s =
    if any (live_run id) s.runs
    then (
      record s {
        runs = update_where (live_run id) (failed_run now reason) s.runs;
        events = s.events ++ run_failed id reason ∷ hugs_cancelled id ∷ [];
      },
      true,
    )
    else (s, false)

abbrev text_id : Json → Option String
text_id (str v) = if is_empty (trim v) then none else some (trim v)
text_id _ = none

-- The run that a payload names.
unfoldable pub run_id_of : Json → Option String
unfolding get_prop
run_id_of payload = text_id (get_prop payload "run_id")

unfoldable pub fail_named : ℕ → Option String → String → Store → Store
unfolding fail_if_live
fail_named now none reason s = s
fail_named now (some id) reason s =
    (fail_if_live now id (concat "The daemon didn't start this run: " reason) s).0

unfoldable pub fail_refused_execute : ℕ → Entry → String → Store → Store
unfolding fail_named run_id_of
fail_refused_execute now e reason s =
    if e.endpoint == "/v1/execute" then fail_named now (run_id_of e.payload) reason s else s
