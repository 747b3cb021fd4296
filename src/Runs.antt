-- ===== src/Runs.antt =====
-- src/services/run.service.ts, the states of a run and its lease, and src/services/run_reaper.service.ts.
-- The table of the runs is that of the outbox's store; each call is one UPDATE and what follows from it.
pub mod Reaper
pub mod Force
pub mod Cancel
pub mod Leased
pub mod Reaped
pub mod Agreed
pub mod Cancelled
pub mod Reported
pub mod Tests
use text.Mathlib.Text.{◌==◌}
use cliqhub_core.Prelude.{
  ℕ, ◌+◌, ◌-◌, String, Bool, true, false, not, ◌&&◌, ◌||◌, List, [], ◌∷◌, ◌++◌, Option, none, some,
  map, filter, any, ltb, if◌then◌else◌, includes, update_where,
}
use cliqhub_core.Outbox.{Run, Event, run_started, run_ended, phase_resumed, hugs_cancelled, Store}
use cliqhub_core.Outbox.Runs.{is_live, live_run}
use cliqhub_core.Outbox.Delivery.{is_run}

-- The columns of daemons that are read here.
pub record Daemon : Type 0 where
  pub id : String
  pub last_heartbeat : Option ℕ

pub data LeaseKind : Type 0 where
  running awaiting_input : LeaseKind

-- The two times that the environment may set keep their defaults.
abbrev pub lease_deadline : LeaseKind → ℕ → ℕ
lease_deadline running now = now + 3600000
lease_deadline awaiting_input now = now + 86400000

abbrev pub is_running : String → Run → Bool
is_running id r = r.run_id == id && (r.state == "running")

abbrev pub or_daemon : Option String → Option String → Option String
or_daemon none old = old
or_daemon (some d) old = some d

abbrev pub restarted_run : ℕ → Run → Run
restarted_run now r = record r {
  state = "running";
  run_error = none;
  completed_at = none;
  lease_expires_at = some (lease_deadline running now);
}

abbrev pub registered_run : ℕ → Option String → Run → Run
registered_run now daemon_id r = record (restarted_run now r) {
  daemon_id = or_daemon daemon_id r.daemon_id;
}

abbrev pub new_run : ℕ → String → Option String → Run
new_run now id daemon_id = record {
  run_id = id;
  daemon_id = daemon_id;
  state = "running";
  completed_at = none;
  run_error = none;
  lease_expires_at = some (lease_deadline running now);
  state_lost_at = none;
  force_terminated_at = none;
  force_terminated_by_user_id = none;
  force_terminated_reason = none;
}

-- `RunService.create`, which also registers a run again; the columns that name and place it are left out.
-- Its event is the call of `_emit_lifecycle`.
unfoldable pub register : ℕ → String → Option String → Store → Store
unfolding update_where
register now id daemon_id s =
    if any (is_run id) s.runs
    then record s {
      runs = update_where (is_run id) (registered_run now daemon_id) s.runs;
      events = if any (is_running id) s.runs then s.events else s.events ++ (run_started id ∷ []);
    }
    else record s {
      runs = s.runs ++ (new_run now id daemon_id ∷ []);
      events = s.events ++ (run_started id ∷ []);
    }

abbrev pub leased_run : ℕ → Run → Run
leased_run until r = record r { lease_expires_at = some until }

unfoldable pub touch_lease : LeaseKind → ℕ → String → Store → Store
unfolding update_where
touch_lease kind now id s = record s {
  runs = update_where (live_run id) (leased_run (lease_deadline kind now)) s.runs;
}

abbrev pub ended_run : ℕ → String → Option String → Run → Run
ended_run now state reason r = record r {
  state = state;
  completed_at = some now;
  run_error = reason;
  lease_expires_at = none;
}

abbrev pub not_in : String → String → Run → Bool
not_in state id r = r.run_id == id && not (r.state == state)

-- The states that a daemon may report at the end.
pub data EndState : Type 0 where
  completed failed cancelled crashed : EndState

abbrev pub end_text : EndState → String
end_text completed = "completed"
end_text failed = "failed"
end_text cancelled = "cancelled"
end_text crashed = "crashed"

unfoldable pub complete : ℕ → String → EndState → Option String → Store → Store
unfolding update_where
complete now id end reason s =
    let state = end_text end in
    if any (not_in state id) s.runs
    then record s {
      runs = update_where (not_in state id) (ended_run now state reason) s.runs;
      events = s.events ++ (run_ended id state reason ∷ hugs_cancelled id ∷ []);
    }
    else s

abbrev pub awaiting_run : ℕ → Run → Run
awaiting_run now r = record r {
  state = "awaiting_input";
  lease_expires_at = some (lease_deadline awaiting_input now);
}

unfoldable pub set_awaiting_input : ℕ → String → Store → Store
unfolding update_where
set_awaiting_input now id s = record s {
  runs = update_where (not_in "awaiting_input" id) (awaiting_run now) s.runs;
}

abbrev pub is_awaiting : String → Run → Bool
is_awaiting id r = r.run_id == id && (r.state == "awaiting_input")

abbrev pub resumed_run : ℕ → Run → Run
resumed_run now r = record r {
  state = "running";
  lease_expires_at = some (lease_deadline running now);
}

unfoldable pub resume : ℕ → String → Store → Store
unfolding update_where
resume now id s = record s {
  runs = update_where (is_awaiting id) (resumed_run now) s.runs;
  events = if any (is_awaiting id) s.runs then s.events ++ (phase_resumed id ∷ []) else s.events;
}

abbrev pub has_ended : String → Run → Bool
has_ended id r =
    r.run_id == id
    && (r.state == "completed"
        || r.state == "failed"
        || r.state == "crashed"
        || r.state == "cancelled")

unfoldable pub restart : ℕ → String → Store → Store
unfolding update_where
restart now id s = record s { runs = update_where (has_ended id) (restarted_run now) s.runs }

abbrev pub on_daemon : Option String → Option String → Bool
on_daemon none d = true
on_daemon (some id) none = false
on_daemon (some id) (some d) = d == id

abbrev pub is_stale_run : Option String → Run → Bool
is_stale_run daemon_id r = r.state == "running" && on_daemon daemon_id r.daemon_id

abbrev pub restart_crashed : ℕ → Run → Run
restart_crashed now r = record r {
  state = "crashed";
  completed_at = some now;
  run_error = some "daemon restarted";
}

abbrev pub crashed_events : String → List Run → List Event
crashed_events reason runs = map (λ r. run_ended r.run_id "crashed" (some reason)) runs

unfoldable pub crash_stale : ℕ → Option String → Store → Store
unfolding update_where
crash_stale now daemon_id s = record s {
  runs = update_where (is_stale_run daemon_id) (restart_crashed now) s.runs;
  events = s.events ++ crashed_events "daemon restarted" (filter (is_stale_run daemon_id) s.runs);
}

-- What a batch of a run's events does to its state.
unfoldable pub ingest_events : ℕ → String → List String → Store → Store
unfolding touch_lease set_awaiting_input resume includes
ingest_events now id types s =
    let touched = touch_lease running now id s in
    let waiting =
      if includes types "phase.waiting" then set_awaiting_input now id touched else touched in
    if includes types "phase.resumed" then resume now id waiting else waiting
