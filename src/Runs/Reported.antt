-- ===== src/Runs/Reported.antt =====
-- What a daemon's reports do: of a run's end, and of a run that the hub has cancelled.
use mathlib.Core.Path.{subst}
use cliqhub_core.Prelude.{
  ℕ, String, true, false, ◌≡◌, refl, List, In, Option, none, some, any, any_elim, any_intro,
  if◌then◌else◌, Bool-cases, inl, inr, arith, eq_iff, update_where, In-update_where_elim,
  In-update_where_intro, same_refl,
}
use cliqhub_core.Outbox.{Run, Store}
use cliqhub_core.Outbox.Delivery.{is_run}
use cliqhub_core.Runs.{
  EndState, end_text, complete, ended_run, not_in, register, registered_run, set_awaiting_input,
  awaiting_run,
}
use cliqhub_core.Runs.Force.{Trigger}
use cliqhub_core.Runs.Cancel.{hub_side_cancel, terminated_run}

none_left :
    (now : ℕ) (id state : String) (reason : Option String) (runs : List Run)
    → any (not_in state id) (update_where (not_in state id) (ended_run now state reason) runs)
      ≡ false
none_left now id state reason runs =
    elim (Bool-cases
      (any (not_in state id) (update_where (not_in state id) (ended_run now state reason) runs))) [
        | inr n ↦ n
        | inl t ↦
            let (y, at, hit) =
              any_elim (not_in state id)
                (update_where (not_in state id) (ended_run now state reason) runs) t in
            let (z, j, q) =
              In-update_where_elim (not_in state id) (ended_run now state reason) y runs at in
            let z_hit : not_in state id
                  (if not_in state id z then ended_run now state reason z else z)
                ≡ true =
              subst (λ w. not_in state id w ≡ true) q hit in
            absurd (gone z z_hit)
      ]
  where
    gone :
        (z : Run)
        → not_in state id (if not_in state id z then ended_run now state reason z else z) ≡ true
        → ⊥
    gone z h = elim (Bool-cases (not_in state id z)) [
      | inl t ↦ let k = rw t at h in let s = same_refl state in absurd (ground arith)
      | inr n ↦ let k = rw n at h in absurd (ground arith)
    ]

-- A report that a run has ended, made again, changes nothing: no time, no error, and no event.
pub complete_twice :
    (now later : ℕ) (id : String) (state : EndState) (reason other : Option String) (s : Store)
    → complete later id state other (complete now id state reason s)
      ≡ complete now id state reason s
unfolding complete
complete_twice now later id state reason other s =
    elim (Bool-cases (any (not_in (end_text state) id) s.runs)) [
      | inr n ↦ rw (n, n) refl
      | inl t ↦ rw t (rw (none_left now id (end_text state) reason s.runs) refl)
    ]

-- After a cancel by the hub, which marks the run as terminated, a daemon that registers the run again
-- makes it run again, and one that reports a phase that waits makes it await input.
pub hub_side_cancel_revived :
    (now later : ℕ) (id user : String) (reason daemon_id : Option String) (t : Trigger) (s : Store)
    (r : Run)
    → In r s.runs
    → r.run_id ≡ id
    → ((q : Run) × In q (register later id daemon_id (hub_side_cancel now id user reason t s)).runs
        × (q.run_id ≡ id)
        × (q.state ≡ "running")
        × (q.completed_at ≡ none)
        × (q.force_terminated_at ≡ some now))
      × ((q : Run) × In q
            (set_awaiting_input later id (hub_side_cancel now id user reason t s)).runs
          × (q.run_id ≡ id)
          × (q.state ≡ "awaiting_input")
          × (q.completed_at ≡ some now)
          × (q.force_terminated_at ≡ some now))
unfolding register hub_side_cancel set_awaiting_input
hub_side_cancel_revived now later id user reason daemon_id t s r at same =
    let hit : is_run id r ≡ true = (eq_iff r.run_id id).1 same in
    let ended : Run = terminated_run now user reason t r in
    let i : In ended cancelled_runs =
      rw hit at
        (In-update_where_intro (is_run id) (terminated_run now user reason t) r s.runs at) in
    let there : any (is_run id) cancelled_runs ≡ true =
      any_intro (is_run id) ended cancelled_runs i hit in
    let j : In (registered_run later daemon_id ended)
        (update_where (is_run id) (registered_run later daemon_id) cancelled_runs) =
      rw hit at (
        In-update_where_intro (is_run id) (registered_run later daemon_id) ended cancelled_runs
          i) in
    let k : In (awaiting_run later ended)
        (update_where (not_in "awaiting_input" id) (awaiting_run later) cancelled_runs) =
      rw hit at (
        In-update_where_intro (not_in "awaiting_input" id) (awaiting_run later) ended cancelled_runs
          i) in
    (
      (registered_run later daemon_id ended, rw there j, same, refl, refl, refl),
      (awaiting_run later ended, k, same, refl, refl, refl),
    )
  where
    cancelled_runs : List Run
    cancelled_runs = update_where (is_run id) (terminated_run now user reason t) s.runs
