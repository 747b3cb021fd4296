-- ===== src/Runs/Reaped.antt =====
-- What the reaper leaves.
use mathlib.Core.Path.{subst}
use cliqhub_core.Prelude.{
  ℕ, ◌-◌, ◌≤◌, String, Bool, true, false, not, ◌&&◌, ◌≡◌, sym, List, In, some, filter, includes,
  Bool-cases, inl, inr, arith, In-update_where_elim, In-update_where_intro,
}
use cliqhub_core.Outbox.{Run, Store}
use cliqhub_core.Outbox.Runs.{is_live}
use cliqhub_core.Runs.{Daemon, ended_run}
use cliqhub_core.Runs.Reaper.{
  ReapTimes, reap, crash_and_emit, on_silent, on_unknown, past_lease, is_silent, is_among,
  is_unknown, has_passed, ids_of,
}
use cliqhub_core.Runs.Leased.{AllLeased, RunSteps, steps-AllLeased}

-- A run that is live after a pass was live before it, and the pass did not choose it.
spared :
    (p : Run → Bool) (now : ℕ) (reason : String) (s : Store) (r : Run)
    → In r (crash_and_emit p now reason s).runs
    → is_live r ≡ true
    → In r s.runs × (p r ≡ false)
unfolding crash_and_emit
spared p now reason s r at live =
    let (z, j, q) = In-update_where_elim p (ended_run now "crashed" (some reason)) r s.runs at in
    elim (Bool-cases (p z)) [
      | inl t ↦
          let crashed_is : r ≡ ended_run now "crashed" (some reason) z = rw t at q in
          absurd (not_live z (subst (λ w. is_live w ≡ true) crashed_is live))
      | inr n ↦
          let same : r ≡ z = rw n at q in
          (subst (λ w. In w s.runs) (sym same) j, subst (λ w. p w ≡ false) (sym same) n)
    ]
  where
    not_live : (x : Run) → is_live (ended_run now "crashed" (some reason) x) ≡ true → ⊥
    not_live x e = cc

-- A run that the pass does not choose stays as it is.
kept :
    (p : Run → Bool) (now : ℕ) (reason : String) (s : Store) (r : Run)
    → In r s.runs
    → p r ≡ false
    → In r (crash_and_emit p now reason s).runs
unfolding crash_and_emit
kept p now reason s r at n =
    let i = In-update_where_intro p (ended_run now "crashed" (some reason)) r s.runs at in rw n at i

-- The run's daemon, if it has one, is registered and was heard of, and its lease has not passed.
pub record IsAlive (at : ReapTimes) (seen daemons : List Daemon) (r : Run) : Type 0 where
  pub is_heard :
      (d : String)
      → r.daemon_id ≡ some d
      → includes (ids_of (filter (is_silent (at.stale_at - 90000)) seen)) d ≡ false
  pub is_registered : (d : String) → r.daemon_id ≡ some d → includes (ids_of daemons) d ≡ true
  pub is_leased : (until : ℕ) → r.lease_expires_at ≡ some until → at.lease_at ≤ until

alive :
    (at : ReapTimes) (seen daemons : List Daemon) (r : Run)
    → is_live r ≡ true
    → on_silent (at.stale_at - 90000) seen r ≡ false
    → on_unknown daemons r ≡ false
    → past_lease at.lease_at r ≡ false
    → IsAlive at seen daemons r
alive at seen daemons r live a b c = record {
  is_heard = λ d e.
      let n : is_among (ids_of (filter (is_silent (at.stale_at - 90000)) seen)) r.daemon_id
          ≡ false =
        not_second _ _ live a in
      rw e at n;
  is_registered = λ d e.
      let n : is_unknown (ids_of daemons) r.daemon_id ≡ false = not_second _ _ live b in
      not_not _ (rw e at n);
  is_leased = λ until e.
      let n : has_passed at.lease_at r.lease_expires_at ≡ false = not_second _ _ live c in
      let m : has_passed at.lease_at (some until) ≡ false = rw e at n in ground arith;
}
  where
    not_second : (x y : Bool) → x ≡ true → (x && y) ≡ false → y ≡ false
    not_second x y h k = ground arith

    not_not : (x : Bool) → not x ≡ false → x ≡ true
    not_not x h = ground arith

-- After a sweep of the reaper each run that is live was live before and is as it was; its daemon, if it
-- has one, was not silent when the sweep began and is registered, and its lease has not passed. A run
-- that had ended is as it was.
pub reap-IsAlive :
    (at : ReapTimes) (seen daemons : List Daemon) (s : Store) (r : Run)
    → (In r (reap at seen daemons s).runs
        → is_live r ≡ true
        → In r s.runs × IsAlive at seen daemons r)
      × (In r s.runs → is_live r ≡ false → In r (reap at seen daemons s).runs)
unfolding reap
reap-IsAlive at seen daemons s r = (
  λ i live.
      let (j, c) = spared (past_lease at.lease_at) at.expired_at _ orphaned r i live in
      let (k, b) = spared (on_unknown daemons) at.orphaned_at _ stale r j live in
      let (l, a) = spared (on_silent (at.stale_at - 90000) seen) at.crashed_at _ s r k live in
      (l, alive at seen daemons r live a b c),
  λ i over.
      kept (past_lease at.lease_at) at.expired_at _ orphaned r
        (kept (on_unknown daemons) at.orphaned_at _ stale r
          (kept (on_silent (at.stale_at - 90000) seen) at.crashed_at _ s r i (not_first _ _ over))
          (not_first _ _ over))
        (not_first _ _ over),
)
  where
    stale : Store
    stale =
        crash_and_emit (on_silent (at.stale_at - 90000) seen) at.crashed_at "daemon unresponsive" s

    orphaned : Store
    orphaned =
        crash_and_emit (on_unknown daemons) at.orphaned_at "daemon no longer registered" stale

    not_first : (x y : Bool) → x ≡ false → (x && y) ≡ false
    not_first x y h = ground arith

-- Where each live run holds a lease, and whatever calls then change the runs, a sweep of the reaper
-- leaves no live run without a lease that ends at the time of the sweep or later.
pub reap-AllLeased :
    (at : ReapTimes) (seen daemons : List Daemon) (s t : Store) (r : Run)
    → AllLeased s.runs
    → RunSteps s t
    → In r (reap at seen daemons t).runs
    → is_live r ≡ true
    → (until : ℕ) × (r.lease_expires_at ≡ some until) × (at.lease_at ≤ until)
reap-AllLeased at seen daemons s t r all steps i live =
    let (j, fit) = (reap-IsAlive at seen daemons t r).0 i live in
    let (until, e) = steps-AllLeased s t steps all r j live in (until, e, fit.is_leased until e)
