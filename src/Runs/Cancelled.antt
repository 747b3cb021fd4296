-- ===== src/Runs/Cancelled.antt =====
-- What a cancel does.
use text.Mathlib.Text.{◌==◌}
use mathlib.Core.Path.{subst}
use cliqhub_core.Prelude.{
  if_cases, ℕ, ◌-◌, String, Bool, true, false, not, ◌&&◌, ◌≡◌, refl, sym, ap, ◌∙◌, List, [], ◌∷◌,
  In, Option, none, some, is_none, Bool-cases, inl, inr, ◌⊎◌, arith, eq_iff, In-update_where_elim,
  is_empty, truthy, truthy-some, ltb, eqb, ◌||◌,
}
use cliqhub_core.Json.{str, get_prop, get_field, field, end}
use cliqhub_core.Outbox.{Entry, Run, Store}
use cliqhub_core.Outbox.Runs.{is_live}
use cliqhub_core.Outbox.Delivery.{is_run, is_pending, field_text, is_text}
use cliqhub_core.Outbox.Enqueued.{command_outbox_enqueue-IsPending}
use cliqhub_core.Runs.{Daemon}
use cliqhub_core.Runs.Force.{
  Trigger, daemon_offline, find_daemon, or_zero, force_terminate_eligibility, is_waiting_cancel,
}
use cliqhub_core.Runs.Cancel.{
  CancelTimes, CancelMode, queued, hub_terminated, already_terminal, cancel_run, cancel_by,
  cancel_found, find_run, hub_side_cancel, terminated_run, is_unacked_cancel, superseded_cancel,
  check_daemon_reachable, fresh_option,
}

-- A command to cancel the run waits for its daemon.
abbrev pub CancelQueued : String → Run → Store → Type 0
CancelQueued id r t =
    (e : Entry) × In e t.outbox
    × (e.endpoint ≡ "/v1/cancel")
    × (r.daemon_id ≡ some e.daemon_id)
    × (get_prop e.payload "run_id" ≡ str id)
    × ((later : ℕ) → is_pending later e ≡ true)

-- The run is cancelled in the hub, marked as terminated, and no cancel of it is tried any more.
abbrev pub CancelledInHub : ℕ → String → Store → Type 0
CancelledInHub now id t =
    ((q : Run)
      → In q t.runs
      → q.run_id ≡ id
      → (q.state ≡ "cancelled") × (q.completed_at ≡ some now) × (q.force_terminated_at ≡ some now))
    × ((e : Entry) → In e t.outbox → is_waiting_cancel id e ≡ false)

third_false : (a b c d : Bool) → c ≡ false → (a && b && c && d) ≡ false
third_false a b c d h = ground arith

acked_tried : (a b c d : Bool) → (a && b && d) ≡ false → (a && b && c && d) ≡ false
acked_tried a b c d h = ground arith

unacked_tried :
    (id : String) (e : Entry) → is_unacked_cancel id e ≡ false → is_waiting_cancel id e ≡ false
unacked_tried id e n =
    acked_tried (e.endpoint == "/v1/cancel") (is_none e.acked_at) (ltb e.attempts e.max_attempts)
      (is_text (field_text (get_prop e.payload "run_id")) id) n

superseded_tried : (id : String) (e : Entry) → is_waiting_cancel id (superseded_cancel e) ≡ false
superseded_tried id e =
    third_false (e.endpoint == "/v1/cancel") (is_none e.acked_at)
      (ltb e.max_attempts e.max_attempts) (is_text (field_text (get_prop e.payload "run_id")) id)
      (ground arith)

hub_side_cancel-CancelledInHub :
    (now : ℕ) (id user : String) (reason : Option String) (t : Trigger) (s : Store)
    → CancelledInHub now id (hub_side_cancel now id user reason t s)
unfolding hub_side_cancel
hub_side_cancel-CancelledInHub now id user reason t s = (
  λ q i q_id.
      let (z, j, e) =
        In-update_where_elim (is_run id) (terminated_run now user reason t) q s.runs i in
      elim (Bool-cases (is_run id z)) [
        | inl h ↦
            let is : q ≡ terminated_run now user reason t z = rw h at e in
            (ap (λ w. w.state) is, ap (λ w. w.completed_at) is, ap (λ w. w.force_terminated_at) is)
        | inr n ↦
            let is : q ≡ z = rw n at e in
            let z_id : z.run_id ≡ id = sym (ap (λ w. w.run_id) is) ∙ q_id in
            absurd (ground (arith, eq_iff z.run_id id))
      ],
  λ e i.
      let (z, j, q) = In-update_where_elim (is_unacked_cancel id) superseded_cancel e s.outbox i in
      subst (λ w. is_waiting_cancel id w ≡ false) (sym q)
        (if_cases (λ w. is_waiting_cancel id w ≡ false) (is_unacked_cancel id z)
          (superseded_cancel z) z (λ _. superseded_tried id z) (λ n. unacked_tried id z n)),
)

find_daemon-id :
    (id : String) (ds : List Daemon) (d : Daemon) → find_daemon id ds ≡ some d → d.id ≡ id
find_daemon-id id [] d e = cc
find_daemon-id id (x ∷ xs) d e = elim (Bool-cases (x.id == id)) [
  | inl t ↦
      let q : x ≡ d = one_daemon x d (rw t at e) in sym (ap (λ w. w.id) q) ∙ (eq_iff x.id id).0 t
  | inr n ↦ find_daemon-id id xs d (rw n at e)
]
  where
    one_daemon : (a b : Daemon) → some a ≡ some b → a ≡ b
    one_daemon a b q = cc

fresh_option-same :
    (now : ℕ) (o : Option Daemon) (d : Daemon) → fresh_option now o ≡ some d → o ≡ some d
fresh_option-same now none d e = cc
fresh_option-same now (some x) d e =
    elim (Bool-cases
      (eqb (or_zero x.last_heartbeat) 0 || ltb 86400000 (now - or_zero x.last_heartbeat))) [
        | inl t ↦ absurd (no_daemon (rw t at e))
        | inr n ↦ elim (Bool-cases (ltb 60000 (now - or_zero x.last_heartbeat))) [
          | inl u ↦ absurd (no_daemon (rw (n, u) at e))
          | inr m ↦ rw (n, m) at e
        ]
      ]
  where
    no_daemon : none ≡ some d → ⊥
    no_daemon q = cc

reached-daemon :
    (now : ℕ) (o : Option String) (ds : List Daemon) (d : Daemon)
    → check_daemon_reachable now o ds ≡ some d
    → o ≡ some d.id
unfolding check_daemon_reachable
reached-daemon now none ds d e = cc
reached-daemon now (some id) ds d e =
    ap some (sym (find_daemon-id id ds d (fresh_option-same now (find_daemon id ds) d e)))

-- A live run's cancel is queued, or was done in the hub.
abbrev pub CancelDone : CancelTimes → String → Run → Store × CancelMode → Type 0
CancelDone at id r (t, mode) =
    ((mode ≡ queued) × CancelQueued id r t)
    ⊎ ((mode ≡ hub_terminated) × CancelledInHub at.written_at id t)

cancel_by-CancelDone :
    (at : CancelTimes) (id user : String) (reason : Option String) (r : Run) (s : Store)
    (trigger : Option Trigger) (daemon : Option Daemon)
    → ((d : Daemon) → daemon ≡ some d → r.daemon_id ≡ some d.id)
    → CancelDone at id r (cancel_by at id user reason trigger daemon s)
unfolding cancel_by get_field
cancel_by-CancelDone at id user reason r s (some t) daemon owner =
    inr (refl, hub_side_cancel-CancelledInHub at.written_at id user reason t s)
cancel_by-CancelDone at id user reason r s none none owner =
    inr (refl, hub_side_cancel-CancelledInHub at.written_at id user reason daemon_offline s)
cancel_by-CancelDone at id user reason r s none (some d) owner =
    let (e, i, _, for_daemon, endpoint, _, others, pending) =
      command_outbox_enqueue-IsPending at.tx_id at.written_at d.id "/v1/cancel"
        (field "run_id" (str id) end) none none s (λ n. cc) in
    inl (
      refl,
      (
        e,
        i,
        endpoint,
        owner d refl ∙ ap some (sym for_daemon),
        others "run_id" (λ n. cc),
        λ later. (pending later).0,
      ),
    )

-- A user's cancel of a live run either leaves a pending command for the run's daemon, or cancels the
-- run in the hub, marks it as terminated there and gives up each cancel that still waited for it.
pub cancel_run-CancelDone :
    (at : CancelTimes) (id user : String) (reason : Option String) (daemons : List Daemon)
    (s : Store) (r : Run)
    → is_empty user ≡ false
    → find_run id s.runs ≡ some r
    → is_live r ≡ true
    → CancelDone at id r (cancel_run at id (some user) reason daemons s)
unfolding cancel_run cancel_found
cancel_run-CancelDone at id user reason daemons s r signed found live =
    rw (signed, found, live)
      (if_cases (CancelDone at id r) (not (is_empty r.state) && not true) (s, already_terminal)
        (cancel_by at id user reason (force_terminate_eligibility at.judged_at daemons s.outbox r)
          (check_daemon_reachable at.reached_at (truthy r.daemon_id) daemons) s)
        (λ h. absurd (never _ h))
        λ _. cancel_by-CancelDone at id user reason r s _ _ (λ d e.
          truthy-some r.daemon_id d.id
            (reached-daemon at.reached_at (truthy r.daemon_id) daemons d e)))
  where
    never : (b : Bool) → (b && not true) ≡ true → ⊥
    never b h = ground arith
