-- ===== src/Outbox/Ended.antt =====
-- Runs that have ended: nothing that the outbox does changes their outcome.
use cliqhub_core.Prelude.{
  concat, ℕ, String, Bool, true, false, ◌≡◌, refl, ◌∙◌, List, [], ◌∷◌, In, Option, none, some, any,
  if◌then◌else◌, Bool-cases, inl, inr, arith,
}
use text.Mathlib.Text.{◌==◌}
use cliqhub_core.Outbox.{Entry, Run, Store}
use cliqhub_core.Prelude.{update_where}
use cliqhub_core.Prelude.{In-update_where_intro}
use cliqhub_core.Outbox.Reply.{
  Reply, is_daemon_run_not_found, is_retryable_daemon_status, daemon_failure_message,
}
use cliqhub_core.Outbox.Runs.{
  is_live, live_run, failed_run, fail_if_live, fail_named, fail_refused_execute, run_id_of,
}
use cliqhub_core.Outbox.Delivery.{
  note_failure, increment_attempts, bump_created_at, exhaust, orphaned_run, is_run,
  handle_daemon_run_not_found, orphan_named, settle_reply, settle, Contact, no_url, replied, threw,
  Delivery, deliver_entry, deliver_all, poll_cycle, out_of_tries, is_backing_off, is_success,
  wait_or_count, pending_batch,
}

-- A run that had ended is still in the table, with the state and the time it had.
abbrev pub SameEnd : Run → Run → Type 0
SameEnd r q = (q.run_id ≡ r.run_id) × (q.state ≡ r.state) × (q.completed_at ≡ r.completed_at)

abbrev pub KeepsEnded : List Run → List Run → Type 0
KeepsEnded before after =
    (r : Run) → In r before → is_live r ≡ false → (q : Run) × In q after × SameEnd r q

keeps_all : (rs : List Run) → KeepsEnded rs rs
keeps_all rs r at e = (r, at, (refl, refl, refl))

keeps_both : (a b c : List Run) → KeepsEnded a b → KeepsEnded b c → KeepsEnded a c
keeps_both a b c h k r at e =
    let (q, i, (n, st, t)) = h r at e in
    let (w, j, (n', st', t')) = k q i (rw st e) in (w, j, (n' ∙ n, st' ∙ st, t' ∙ t))

module _ (p : Run → Bool) (f : Run → Run) where
  pub update_where-KeepsEnded :
      (rs : List Run)
      → ((r : Run) → p r ≡ true → is_live r ≡ false → SameEnd r (f r))
      → KeepsEnded rs (update_where p f rs)
  update_where-KeepsEnded rs same r at e = (
    if p r then f r else r,
    In-update_where_intro p f r rs at,
    elim (Bool-cases (p r)) [ inl t ↦ rw t (same r t e) | inr n ↦ rw n (refl, refl, refl) ],
  )

failed-KeepsEnded :
    (now : ℕ) (id reason : String) (s : Store)
    → KeepsEnded s.runs (fail_if_live now id reason s).0.runs
unfolding fail_if_live
failed-KeepsEnded now id reason s = elim (Bool-cases (any (live_run id) s.runs)) [
  | inl t ↦
      rw t (
        update_where-KeepsEnded (live_run id) (failed_run now reason) s.runs
          (λ r h e. ground arith))
  | inr n ↦ rw n (keeps_all s.runs)
]

refused-KeepsEnded :
    (now : ℕ) (e : Entry) (reason : String) (s : Store)
    → KeepsEnded s.runs (fail_refused_execute now e reason s).runs
unfolding fail_refused_execute fail_named
refused-KeepsEnded now e reason s = elim (Bool-cases (e.endpoint == "/v1/execute")) [
  | inl t ↦ rw t (named (run_id_of e.payload))
  | inr n ↦ rw n (keeps_all s.runs)
]
  where
    named : (o : Option String) → KeepsEnded s.runs (fail_named now o reason s).runs
    named none = keeps_all s.runs
    named (some id) =
        failed-KeepsEnded now id (concat "The daemon didn't start this run: " reason) s

note_failure-KeepsEnded :
    (now : ℕ) (e : Entry) (reason : String) (s : Store)
    → KeepsEnded s.runs (note_failure now e reason s).runs
unfolding note_failure
note_failure-KeepsEnded now e reason s = elim (Bool-cases (out_of_tries now e)) [
  | inl t ↦ rw t (refused-KeepsEnded now e reason (increment_attempts e.tx_id now reason s))
  | inr n ↦ rw n (keeps_all s.runs)
]

orphan-KeepsEnded :
    (now : ℕ) (tx_id : String) (o : Option String) (s : Store)
    → KeepsEnded s.runs (orphan_named now tx_id o s).runs
unfolding orphan_named
orphan-KeepsEnded now tx_id none s = keeps_all s.runs
orphan-KeepsEnded now tx_id (some id) s =
    update_where-KeepsEnded (is_run id) (orphaned_run now) s.runs
      (λ r h e. (refl, ground arith, ground arith))

settle_reply-KeepsEnded :
    (now : ℕ) (e : Entry) (r : Reply) (s : Store) → KeepsEnded s.runs (settle_reply now e r s).runs
unfolding settle_reply handle_daemon_run_not_found
settle_reply-KeepsEnded now e r s = elim (Bool-cases (is_success r.status)) [
  | inl t ↦ rw t (keeps_all s.runs)
  | inr a ↦ rw a (elim (Bool-cases (is_daemon_run_not_found r.status r.body)) [
    | inl t ↦ rw t (orphan-KeepsEnded now e.tx_id (run_id_of e.payload) s)
    | inr b ↦ rw b (elim (Bool-cases (is_retryable_daemon_status r.status)) [
      | inl t ↦ rw t (note_failure-KeepsEnded now e (daemon_failure_message r) s)
      | inr n ↦ rw n (
          refused-KeepsEnded now e (daemon_failure_message r)
            (exhaust e.tx_id (daemon_failure_message r) s))
    ])
  ])
]

wait-KeepsEnded :
    (now : ℕ) (e : Entry) (o : Option ℕ) (s : Store)
    → KeepsEnded s.runs (wait_or_count now e o s).runs
unfolding bump_created_at
wait-KeepsEnded now e none s = note_failure-KeepsEnded now e "no_public_url" s
wait-KeepsEnded now e (some u) s = keeps_all s.runs

settle-KeepsEnded :
    (now : ℕ) (e : Entry) (c : Contact) (s : Store) → KeepsEnded s.runs (settle now e c s).runs
unfolding settle
settle-KeepsEnded now e no_url s = wait-KeepsEnded now e e.deliver_until s
settle-KeepsEnded now e (replied r) s = settle_reply-KeepsEnded now e r s
settle-KeepsEnded now e (threw m) s = note_failure-KeepsEnded now e m s

deliver_entry-KeepsEnded :
    (d : Delivery) (e : Entry) (s : Store) → KeepsEnded s.runs (deliver_entry d e s).runs
unfolding deliver_entry
deliver_entry-KeepsEnded d e s = elim (Bool-cases (is_backing_off d.checked_at e)) [
  | inl t ↦ rw t (keeps_all s.runs)
  | inr n ↦ rw n (settle-KeepsEnded d.settled_at e d.contact s)
]

deliver_all-KeepsEnded :
    (met : Entry → Delivery) (es : List Entry) (s : Store)
    → KeepsEnded s.runs (deliver_all met es s).runs
unfolding deliver_all
deliver_all-KeepsEnded met [] s = keeps_all s.runs
deliver_all-KeepsEnded met (e ∷ es) s =
    keeps_both s.runs (deliver_entry (met e) e s).runs (deliver_all met (e ∷ es) s).runs
      (deliver_entry-KeepsEnded (met e) e s)
      (deliver_all-KeepsEnded met es (deliver_entry (met e) e s))

-- A poll cycle, whatever its deliveries meet, keeps each run that had ended, with its state and the
-- time at which it ended.
pub poll_cycle-KeepsEnded :
    (now : ℕ) (met : Entry → Delivery) (s : Store) → KeepsEnded s.runs (poll_cycle now met s).runs
unfolding poll_cycle
poll_cycle-KeepsEnded now met s = deliver_all-KeepsEnded met (pending_batch now s.outbox) s
