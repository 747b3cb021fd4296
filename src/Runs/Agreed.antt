-- ===== src/Runs/Agreed.antt =====
-- The page and the cancel judge whether a run looks stuck.
use mathlib.Core.Path.{subst}
use cliqhub_core.Prelude.{
  String, truthy, not, ◌&&◌, is_empty, sym, ◌↔◌, ℕ, Bool, true, false, ◌≡◌, refl, List, Option,
  none, some, if◌then◌else◌, Bool-cases, Option-cases, inl, inr, ◌⊎◌,
}
use cliqhub_core.Outbox.{Entry, Run, Store}
use cliqhub_core.Outbox.Runs.{is_live}
use cliqhub_core.Runs.{Daemon}
use cliqhub_core.Runs.Force.{
  Trigger, stale_cancel, daemon_offline, lease_expired, ForceStatus, eligible_status,
  blocked_status, has_stale_cancel, is_daemon_gone, is_lease_over, force_terminate_eligibility,
  load_force_terminate_status, live_status,
}
use cliqhub_core.Runs.Cancel.{
  CancelTimes, CancelMode, hub_terminated, cancel_run, cancel_found, cancel_by, find_run,
  check_daemon_reachable,
}

abbrev pub status_of : Option Trigger → ForceStatus
status_of (some t) = eligible_status t
status_of none = blocked_status

with_daemon :
    (stale gone over : Bool)
    → (if stale
        then eligible_status stale_cancel
        else if gone
        then eligible_status daemon_offline
        else if over
        then eligible_status lease_expired
        else blocked_status)
      ≡ status_of (
          if stale
          then some stale_cancel
          else if gone
          then some daemon_offline
          else if over
          then some lease_expired
          else none)
with_daemon true gone over = refl
with_daemon false true over = refl
with_daemon false false true = refl
with_daemon false false false = refl

-- The page and the eligibility agree, unless the run has no daemon and a cancel that waits too long.
abbrev Agrees : Run → Option Trigger → ForceStatus → Type 0
Agrees r trigger shown =
    (shown ≡ status_of trigger) ⊎ ((truthy r.daemon_id ≡ none) × (trigger ≡ some stale_cancel))

load_force_terminate_status-Agrees :
    (now : ℕ) (daemons : List Daemon) (outbox : List Entry) (r : Run)
    → is_live r ≡ true
    → r.force_terminated_at ≡ none
    → Agrees r
        (force_terminate_eligibility now daemons outbox r)
        (load_force_terminate_status now daemons outbox r)
unfolding load_force_terminate_status force_terminate_eligibility live_status
load_force_terminate_status-Agrees now daemons outbox r live fresh =
    elim (Option-cases (truthy r.daemon_id)) [
      | inr (d, e) ↦ inl (
          rw (fresh, live, e)
            (with_daemon (has_stale_cancel now r.run_id outbox)
              (is_daemon_gone now (some d) daemons) (is_lease_over now r.lease_expires_at)))
      | inl n ↦ elim (Bool-cases (has_stale_cancel now r.run_id outbox)) [
        | inl t ↦ inr (n, rw t refl)
        | inr m ↦ inl (
            rw (fresh, live, n, m) (with_daemon false false (is_lease_over now r.lease_expires_at)))
      ]
    ]

-- The page offers to end the run, for some reason.
abbrev pub IsOffered : ForceStatus → Type 0
IsOffered shown = (t : Trigger) × (shown ≡ eligible_status t)

cancel_by-mode_iff :
    (at : CancelTimes) (id user : String) (reason : Option String) (s : Store) (r : Run)
    (trigger : Option Trigger) (daemon : Option Daemon) (shown : ForceStatus)
    → Agrees r trigger shown
    → (truthy r.daemon_id ≡ none → daemon ≡ none)
    → ((cancel_by at id user reason trigger daemon s).1 ≡ hub_terminated)
      ↔ (IsOffered shown ⊎ (daemon ≡ none))
unfolding cancel_by
cancel_by-mode_iff at id user reason s r (some t) daemon shown (inl e) lone =
    (λ _. inl (t, e), λ _. refl)
cancel_by-mode_iff at id user reason s r (some t) daemon shown (inr (n, e)) lone =
    (λ _. inr (lone n), λ _. refl)
cancel_by-mode_iff at id user reason s r none none shown agrees lone = (λ _. inr refl, λ _. refl)
cancel_by-mode_iff at id user reason s r none (some d) shown (inl e) lone =
    (λ q. cc, λ offered. elim offered [ inl (t, o) ↦ cc | inr q ↦ cc ])
cancel_by-mode_iff at id user reason s r none (some d) shown (inr (n, e)) lone = cc

unreached :
    (now : ℕ) (o : Option String) (ds : List Daemon)
    → o ≡ none
    → check_daemon_reachable now o ds ≡ none
unfolding check_daemon_reachable
unreached now o ds e = rw e refl

-- A user's cancel of a live run that was not terminated ends it in the hub exactly where, at the time at
-- which the cancel judges the run, the page offers that, or where the daemon cannot be reached: the run
-- names none, or it is not registered, or its last heartbeat is too old.
pub cancel_run-load_force_terminate_status :
    (at : CancelTimes) (id user : String) (reason : Option String) (daemons : List Daemon)
    (s : Store) (r : Run)
    → is_empty user ≡ false
    → find_run id s.runs ≡ some r
    → is_live r ≡ true
    → r.force_terminated_at ≡ none
    → ((cancel_run at id (some user) reason daemons s).1 ≡ hub_terminated) ↔ (
        IsOffered (load_force_terminate_status at.judged_at daemons s.outbox r)
        ⊎ (check_daemon_reachable at.reached_at (truthy r.daemon_id) daemons ≡ none))
unfolding cancel_run cancel_found
cancel_run-load_force_terminate_status at id user reason daemons s r signed found live fresh =
    subst
      (λ (res : Store × CancelMode). (res.1 ≡ hub_terminated) ↔ (
        IsOffered (load_force_terminate_status at.judged_at daemons s.outbox r)
        ⊎ (check_daemon_reachable at.reached_at (truthy r.daemon_id) daemons ≡ none)))
      (sym is_by)
      (cancel_by-mode_iff at id user reason s r
        (force_terminate_eligibility at.judged_at daemons s.outbox r)
        (check_daemon_reachable at.reached_at (truthy r.daemon_id) daemons)
        (load_force_terminate_status at.judged_at daemons s.outbox r)
        (load_force_terminate_status-Agrees at.judged_at daemons s.outbox r live fresh)
        (unreached at.reached_at (truthy r.daemon_id) daemons))
  where
    skipped : (b : Bool) (x y : Store × CancelMode) → (if b && not true then x else y) ≡ y
    skipped true x y = refl
    skipped false x y = refl

    is_by :
        cancel_run at id (some user) reason daemons s
        ≡ cancel_by at id user reason
            (force_terminate_eligibility at.judged_at daemons s.outbox r)
            (check_daemon_reachable at.reached_at (truthy r.daemon_id) daemons)
            s
    is_by = rw (signed, found, live) (skipped (not (is_empty r.state)) _ _)
