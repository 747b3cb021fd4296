-- ===== src/Runs/Tests.antt =====
-- One run and its daemon, and the theorems of runs at them.
use cliqhub_core.Prelude.{
  ℕ, ◌≤◌, true, false, ◌↔◌, ◌≡◌, refl, sym, ap, List, [], ◌∷◌, In, none, some, inl, inr, ◌⊎◌,
}
use cliqhub_core.Outbox.{Run, Store}
use cliqhub_core.Outbox.Runs.{is_live}
use cliqhub_core.Runs.{Daemon, completed, complete, register, set_awaiting_input}
use cliqhub_core.Runs.Reaper.{ReapTimes, reap}
use cliqhub_core.Runs.Leased.{AllLeased, waiting, stop, next}
use cliqhub_core.Runs.Reaped.{IsAlive, reap-IsAlive, reap-AllLeased}
use cliqhub_core.Runs.Force.{load_force_terminate_status}
use cliqhub_core.Runs.Agreed.{IsOffered, cancel_run-load_force_terminate_status}
use cliqhub_core.Runs.Cancel.{
  CancelTimes, hub_terminated, check_daemon_reachable, hub_side_cancel, cancel_run,
}
use cliqhub_core.Runs.Force.{daemon_offline}
use cliqhub_core.Runs.Cancelled.{CancelDone, cancel_run-CancelDone}
use cliqhub_core.Runs.Reported.{complete_twice, hub_side_cancel_revived}

abbrev run : Run
run = record {
  run_id = "r1";
  daemon_id = some "d1";
  state = "running";
  completed_at = none;
  run_error = none;
  lease_expires_at = some 9000000;
  state_lost_at = none;
  force_terminated_at = none;
  force_terminated_by_user_id = none;
  force_terminated_reason = none;
}

abbrev runs : Store
runs = record { outbox = []; runs = run ∷ []; events = [] }

abbrev daemons : List Daemon
daemons = record { id = "d1"; last_heartbeat = some 990000 } ∷ []

abbrev sweep : ReapTimes
sweep = record {
  stale_at = 1000000;
  crashed_at = 1000001;
  orphaned_at = 1000002;
  lease_at = 1000003;
  expired_at = 1000004;
}

reap-IsAlive_example :
    (In run (reap sweep daemons daemons runs).runs
      → is_live run ≡ true
      → In run runs.runs × IsAlive sweep daemons daemons run)
    × (In run runs.runs → is_live run ≡ false → In run (reap sweep daemons daemons runs).runs)
reap-IsAlive_example = reap-IsAlive sweep daemons daemons runs run

runs-AllLeased : AllLeased runs.runs
runs-AllLeased r at live = elim at [
  | inl q ↦ (9000000, sym (ap (λ z. z.lease_expires_at) q))
  | inr j ↦ absurd j
]

-- The run after its phase waits for a person.
abbrev parked : Run
parked = record run { state = "awaiting_input"; lease_expires_at = some 87300000 }

parked_kept : In parked (reap sweep daemons daemons (set_awaiting_input 900000 "r1" runs)).runs
unfolding reap set_awaiting_input
parked_kept = inl refl

reap-AllLeased_example : (until : ℕ) × (parked.lease_expires_at ≡ some until) × (1000003 ≤ until)
reap-AllLeased_example =
    reap-AllLeased sweep daemons daemons runs (set_awaiting_input 900000 "r1" runs) parked
      runs-AllLeased
      (next runs (set_awaiting_input 900000 "r1" runs) (set_awaiting_input 900000 "r1" runs)
        (waiting 900000 "r1" runs) (stop (set_awaiting_input 900000 "r1" runs)))
      parked_kept refl

complete_twice_example :
    complete 6 "r1" completed (some "late") (complete 5 "r1" completed none runs)
    ≡ complete 5 "r1" completed none runs
complete_twice_example = complete_twice 5 6 "r1" completed none (some "late") runs

hub_side_cancel_revived_example :
    ((q : Run) × In q
        (register 8 "r1" none (hub_side_cancel 7 "r1" "u1" none daemon_offline runs)).runs
      × (q.run_id ≡ "r1")
      × (q.state ≡ "running")
      × (q.completed_at ≡ none)
      × (q.force_terminated_at ≡ some 7))
    × ((q : Run) × In q
          (set_awaiting_input 8 "r1" (hub_side_cancel 7 "r1" "u1" none daemon_offline runs)).runs
        × (q.run_id ≡ "r1")
        × (q.state ≡ "awaiting_input")
        × (q.completed_at ≡ some 7)
        × (q.force_terminated_at ≡ some 7))
hub_side_cancel_revived_example =
    hub_side_cancel_revived 7 8 "r1" "u1" none none daemon_offline runs run (inl refl) refl

abbrev cancelling : CancelTimes
cancelling = record {
  judged_at = 1000000;
  reached_at = 1000001;
  written_at = 1000002;
  tx_id = "t1";
}

cancel_run-load_force_terminate_status_example :
    ((cancel_run cancelling "r1" (some "u1") none daemons runs).1 ≡ hub_terminated) ↔ (
      IsOffered (load_force_terminate_status 1000000 daemons [] run)
      ⊎ (check_daemon_reachable 1000001 (some "d1") daemons ≡ none))
cancel_run-load_force_terminate_status_example =
    cancel_run-load_force_terminate_status cancelling "r1" "u1" none daemons runs run refl refl refl
      refl

cancel_run-CancelDone_example :
    CancelDone cancelling "r1" run (cancel_run cancelling "r1" (some "u1") none daemons runs)
cancel_run-CancelDone_example =
    cancel_run-CancelDone cancelling "r1" "u1" none daemons runs run refl refl refl
