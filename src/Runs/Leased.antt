-- ===== src/Runs/Leased.antt =====
-- Each live run holds a lease, whatever is called.
use mathlib.Core.Path.{subst}
use cliqhub_core.Prelude.{
  if_cases, ℕ, String, Bool, true, ◌≡◌, refl, sym, List, [], ◌∷◌, In, In-append_elim, Option, none,
  some, any, Bool-cases, inl, inr, update_where, In-update_where_elim,
}
use cliqhub_core.Outbox.{Run, Store}
use cliqhub_core.Outbox.Runs.{is_live, live_run, fail_if_live, failed_run}
use cliqhub_core.Outbox.Delivery.{orphan_named, orphaned_run, is_run}
use cliqhub_core.Runs.{
  LeaseKind, lease_deadline, register, registered_run, new_run, restarted_run, touch_lease,
  leased_run, EndState, completed, failed, cancelled, crashed, end_text, complete, ended_run,
  not_in, set_awaiting_input, awaiting_run, resume, resumed_run, is_awaiting, restart, has_ended,
  crash_stale, is_stale_run, restart_crashed,
}
use cliqhub_core.Runs.Reaper.{crash_and_emit}
use cliqhub_core.Runs.Force.{Trigger}
use cliqhub_core.Runs.Cancel.{hub_side_cancel, terminated_run}

abbrev pub HasLease : Run → Type 0
HasLease r = is_live r ≡ true → (until : ℕ) × (r.lease_expires_at ≡ some until)

abbrev pub AllLeased : List Run → Type 0
AllLeased runs = (r : Run) → In r runs → HasLease r

-- A change that leaves each run that it touches leased, or not live.
update_where-AllLeased :
    (p : Run → Bool) (f : Run → Run) (runs : List Run)
    → ((r : Run) → HasLease r → HasLease (f r))
    → AllLeased runs
    → AllLeased (update_where p f runs)
update_where-AllLeased p f runs keeps all r at =
    let (z, j, q) = In-update_where_elim p f r runs at in
    subst HasLease (sym q) (if_cases HasLease (p z) (f z) z (λ _. keeps z (all z j)) (λ _. all z j))

-- The calls that change runs.
pub data RunStep : Store → Store → Type 0 where
  registering :
      (now : ℕ) (id : String) (daemon_id : Option String) (s : Store)
      → RunStep s (register now id daemon_id s)
  touching :
      (kind : LeaseKind) (now : ℕ) (id : String) (s : Store) → RunStep s (touch_lease kind now id s)
  completing :
      (now : ℕ) (id : String) (state : EndState) (reason : Option String) (s : Store)
      → RunStep s (complete now id state reason s)
  waiting : (now : ℕ) (id : String) (s : Store) → RunStep s (set_awaiting_input now id s)
  resuming : (now : ℕ) (id : String) (s : Store) → RunStep s (resume now id s)
  restarting : (now : ℕ) (id : String) (s : Store) → RunStep s (restart now id s)
  crashing :
      (now : ℕ) (daemon_id : Option String) (s : Store) → RunStep s (crash_stale now daemon_id s)
  reaping :
      (p : Run → Bool) (now : ℕ) (reason : String) (s : Store)
      → RunStep s (crash_and_emit p now reason s)
  failing :
      (now : ℕ) (id reason : String) (s : Store) → RunStep s ((fail_if_live now id reason s).0)
  losing :
      (now : ℕ) (tx_id : String) (id : Option String) (s : Store)
      → RunStep s (orphan_named now tx_id id s)
  terminating :
      (now : ℕ) (id user : String) (reason : Option String) (t : Trigger) (s : Store)
      → RunStep s (hub_side_cancel now id user reason t s)

pub data RunSteps : Store → Store → Type 0 where
  stop : (s : Store) → RunSteps s s
  next : (s t u : Store) → RunStep s t → RunSteps t u → RunSteps s u

ended_run-HasLease :
    (now : ℕ) (state : EndState) (reason : Option String) (r : Run)
    → HasLease (ended_run now (end_text state) reason r)
ended_run-HasLease now completed reason r live = cc
ended_run-HasLease now failed reason r live = cc
ended_run-HasLease now cancelled reason r live = cc
ended_run-HasLease now crashed reason r live = cc

orphaned_run-HasLease : (now : ℕ) (r : Run) → HasLease (orphaned_run now r)
orphaned_run-HasLease now r live = elim (Bool-cases (is_live r)) [
  | inl t ↦ cc (rw t at live)
  | inr n ↦ let same : is_live r ≡ true = rw n at live in cc
]

step-AllLeased : (s t : Store) → RunStep s t → AllLeased s.runs → AllLeased t.runs
unfolding register touch_lease complete set_awaiting_input resume restart crash_stale crash_and_emit
    fail_if_live orphan_named hub_side_cancel
step-AllLeased s t (registering now id daemon_id s') all =
    if_cases (λ (u : Store). AllLeased u.runs) (any (is_run id) s.runs) _ _
      (λ _.
        update_where-AllLeased (is_run id) (registered_run now daemon_id) s.runs
          (λ r _ _. (_, refl)) all)
      λ _ r at. elim (In-append_elim r s.runs (new_run now id daemon_id ∷ []) at) [
        | inl i ↦ all r i
        | inr (inl q) ↦ subst HasLease q (λ _. (_, refl))
        | inr (inr j) ↦ absurd j
      ]
step-AllLeased s t (touching kind now id s') all =
    update_where-AllLeased (live_run id) (leased_run (lease_deadline kind now)) s.runs
      (λ r _ _. (_, refl)) all
step-AllLeased s t (completing now id state reason s') all =
    if_cases (λ (u : Store). AllLeased u.runs) (any (not_in (end_text state) id) s.runs) _ _
      (λ _.
        update_where-AllLeased (not_in (end_text state) id) (ended_run now (end_text state) reason)
          s.runs (λ r _. ended_run-HasLease now state reason r) all)
      (λ _. all)
step-AllLeased s t (waiting now id s') all =
    update_where-AllLeased (not_in "awaiting_input" id) (awaiting_run now) s.runs
      (λ r _ _. (_, refl)) all
step-AllLeased s t (resuming now id s') all =
    update_where-AllLeased (is_awaiting id) (resumed_run now) s.runs (λ r _ _. (_, refl)) all
step-AllLeased s t (restarting now id s') all =
    update_where-AllLeased (has_ended id) (restarted_run now) s.runs (λ r _ _. (_, refl)) all
step-AllLeased s t (crashing now daemon_id s') all =
    update_where-AllLeased (is_stale_run daemon_id) (restart_crashed now) s.runs (λ r _ live. cc)
      all
step-AllLeased s t (reaping p now reason s') all =
    update_where-AllLeased p (ended_run now "crashed" (some reason)) s.runs
      (λ r _. ended_run-HasLease now crashed (some reason) r) all
step-AllLeased s t (failing now id reason s') all =
    if_cases (λ (u : Store × Bool). AllLeased u.0.runs) (any (live_run id) s.runs) _ _
      (λ _.
        update_where-AllLeased (live_run id) (failed_run now reason) s.runs (λ r _ live. cc) all)
      (λ _. all)
step-AllLeased s t (losing now tx_id none s') all = all
step-AllLeased s t (losing now tx_id (some id) s') all =
    update_where-AllLeased (is_run id) (orphaned_run now) s.runs
      (λ r _. orphaned_run-HasLease now r) all
step-AllLeased s t (terminating now id user reason trigger s') all =
    update_where-AllLeased (is_run id) (terminated_run now user reason trigger) s.runs
      (λ r _ live. cc) all

pub steps-AllLeased : (s t : Store) → RunSteps s t → AllLeased s.runs → AllLeased t.runs
steps-AllLeased s t (stop s') all = all
steps-AllLeased s t (next s' u t' step steps) all =
    steps-AllLeased u t steps (step-AllLeased s u step all)
