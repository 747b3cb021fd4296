-- ===== src/Outbox/Rows.antt =====
-- What a delivery makes of the row of its own command.
use mathlib.Core.Path.{subst}
use cliqhub_core.Prelude.{
  ℕ, String, false, ◌≡◌, refl, sym, ap, ◌∙◌, List, In, Option, none, some, if◌then◌else◌,
  Bool-cases, inl, inr, arith, eq_iff,
}
use cliqhub_core.Outbox.{Entry, Store}
use cliqhub_core.Prelude.{update_where}
use cliqhub_core.Prelude.{In-update_where_elim}
use cliqhub_core.Outbox.Reply.{
  Reply, daemon_failure_message, is_daemon_run_not_found, is_retryable_daemon_status,
}
use cliqhub_core.Outbox.Runs.{fail_refused_execute, fail_named, fail_if_live, run_id_of}
use cliqhub_core.Outbox.Delivery.{
  has_tx, counted, exhausted, arrived, bumped, superseded, same_run, note_failure,
  increment_attempts, bump_created_at, exhaust, mark_delivered, handle_daemon_run_not_found,
  orphan_named, out_of_tries, is_success, settle_reply, wait_or_count, settle, Contact, no_url,
  replied, threw, Delivery, deliver_entry, is_backing_off,
}

-- The table has no other row of the command.
abbrev pub Only : Entry → List Entry → Type 0
Only e rows = (y : Entry) → In y rows → y.tx_id ≡ e.tx_id → y ≡ e

own-update :
    (e : Entry) (f : Entry → Entry) (rows : List Entry)
    → Only e rows
    → ((y : Entry) → (f y).tx_id ≡ y.tx_id)
    → (x : Entry) → In x (update_where (has_tx e.tx_id) f rows)
    → x.tx_id ≡ e.tx_id
    → x ≡ f e
own-update e f rows only keeps x at same =
    let (y, i, q) = In-update_where_elim (has_tx e.tx_id) f x rows at in
    elim (Bool-cases (has_tx e.tx_id y)) [
      | inl t ↦
          let k : y.tx_id ≡ e.tx_id = ground (arith, eq_iff y.tx_id e.tx_id) in
          let x_is : x ≡ f y = rw t at q in x_is ∙ ap f (only y i k)
      | inr n ↦
          let x_is : x ≡ y = rw n at q in
          let k : y.tx_id ≡ e.tx_id = sym (ap (λ z. z.tx_id) x_is) ∙ same in
          absurd (ground (arith, eq_iff y.tx_id e.tx_id))
    ]

other-update :
    (e : Entry) (id : String) (rows : List Entry)
    → Only e rows
    → Only e (update_where (same_run e.tx_id id) superseded rows)
unfolding same_run
other-update e id rows only x at same =
    let (y, i, q) = In-update_where_elim (same_run e.tx_id id) superseded x rows at in
    elim (Bool-cases (same_run e.tx_id id y)) [
      | inl t ↦
          let x_is : x ≡ superseded y = rw t at q in
          let k : y.tx_id ≡ e.tx_id = sym (ap (λ z. z.tx_id) x_is) ∙ same in
          absurd (ground (arith, eq_iff y.tx_id e.tx_id))
      | inr n ↦
          let x_is : x ≡ y = rw n at q in x_is ∙ only y i (sym (ap (λ z. z.tx_id) x_is) ∙ same)
    ]

unfoldable pub row_after_reply : ℕ → Entry → Reply → Entry
row_after_reply now e r =
    if is_success r.status
    then arrived now e
    else if is_daemon_run_not_found r.status r.body
    then exhausted (daemon_failure_message r) e
    else if is_retryable_daemon_status r.status
    then counted now (daemon_failure_message r) e
    else exhausted (daemon_failure_message r) e

abbrev pub row_after_wait : ℕ → Entry → Option ℕ → Entry
row_after_wait now e none = counted now "no_public_url" e
row_after_wait now e (some until) = bumped now e

unfoldable pub row_after : ℕ → Entry → Contact → Entry
unfolding row_after_reply
row_after now e no_url = row_after_wait now e e.deliver_until
row_after now e (replied r) = row_after_reply now e r
row_after now e (threw m) = counted now m e

refused-outbox :
    (now : ℕ) (e : Entry) (reason : String) (s : Store)
    → (fail_refused_execute now e reason s).outbox ≡ s.outbox
unfolding fail_refused_execute fail_named fail_if_live
refused-outbox now e reason s = ground arith

note_failure-outbox :
    (now : ℕ) (e : Entry) (reason : String) (s : Store)
    → (note_failure now e reason s).outbox
      ≡ update_where (has_tx e.tx_id) (counted now reason) s.outbox
unfolding note_failure increment_attempts
note_failure-outbox now e reason s = elim (Bool-cases (out_of_tries now e)) [
  | inl t ↦ rw t (refused-outbox now e reason (increment_attempts e.tx_id now reason s))
  | inr n ↦ rw n refl
]

module _ (e : Entry) (s : Store) (only : Only e s.outbox) where
  counted-row :
      (now : ℕ) (reason : String) (x : Entry)
      → In x (note_failure now e reason s).outbox
      → x.tx_id ≡ e.tx_id
      → x ≡ counted now reason e
  counted-row now reason x at same =
      own-update e (counted now reason) s.outbox only (λ y. refl) x
        (subst (In x) (note_failure-outbox now e reason s) at) same

  not_found-row :
      (now : ℕ) (o : Option String) (reason : String) (x : Entry)
      → In x (exhaust e.tx_id reason (orphan_named now e.tx_id o s)).outbox
      → x.tx_id ≡ e.tx_id
      → x ≡ exhausted reason e
  unfolding exhaust orphan_named
  not_found-row now none reason x at same =
      own-update e (exhausted reason) s.outbox only (λ y. refl) x at same
  not_found-row now (some id) reason x at same =
      own-update e (exhausted reason) (update_where (same_run e.tx_id id) superseded s.outbox)
        (other-update e id s.outbox only) (λ y. refl) x at same

  refused-row :
      (now : ℕ) (reason : String) (x : Entry)
      → In x (fail_refused_execute now e reason (exhaust e.tx_id reason s)).outbox
      → x.tx_id ≡ e.tx_id
      → x ≡ exhausted reason e
  unfolding exhaust
  refused-row now reason x at same =
      own-update e (exhausted reason) s.outbox only (λ y. refl) x
        (subst (In x) (refused-outbox now e reason (exhaust e.tx_id reason s)) at) same

  reply-row :
      (now : ℕ) (r : Reply) (x : Entry)
      → In x (settle_reply now e r s).outbox
      → x.tx_id ≡ e.tx_id
      → x ≡ row_after_reply now e r
  unfolding settle_reply row_after_reply mark_delivered handle_daemon_run_not_found
  reply-row now r x at same = elim (Bool-cases (is_success r.status)) [
    | inl t ↦ rw t (own-update e (arrived now) s.outbox only (λ y. refl) x (rw t at at) same)
    | inr a ↦ rw a (elim (Bool-cases (is_daemon_run_not_found r.status r.body)) [
      | inl t ↦ rw t (
          not_found-row now (run_id_of e.payload) (daemon_failure_message r) x (rw (a, t) at at)
            same)
      | inr b ↦ rw b (elim (Bool-cases (is_retryable_daemon_status r.status)) [
        | inl t ↦ rw t (counted-row now (daemon_failure_message r) x (rw (a, b, t) at at) same)
        | inr n ↦ rw n (refused-row now (daemon_failure_message r) x (rw (a, b, n) at at) same)
      ])
    ])
  ]

  wait-row :
      (now : ℕ) (o : Option ℕ) (x : Entry)
      → In x (wait_or_count now e o s).outbox
      → x.tx_id ≡ e.tx_id
      → x ≡ row_after_wait now e o
  unfolding bump_created_at
  wait-row now none x at same = counted-row now "no_public_url" x at same
  wait-row now (some until) x at same =
      own-update e (bumped now) s.outbox only (λ y. refl) x at same

  settle-row :
      (now : ℕ) (c : Contact) (x : Entry)
      → In x (settle now e c s).outbox
      → x.tx_id ≡ e.tx_id
      → x ≡ row_after now e c
  unfolding settle row_after
  settle-row now no_url x at same = wait-row now e.deliver_until x at same
  settle-row now (replied r) x at same = reply-row now r x at same
  settle-row now (threw m) x at same = counted-row now m x at same

  -- Once the backoff is over, the command's row is left as `row_after` says.
  pub deliver_entry-row :
      (d : Delivery) (x : Entry)
      → is_backing_off d.checked_at e ≡ false
      → In x (deliver_entry d e s).outbox
      → x.tx_id ≡ e.tx_id
      → x ≡ row_after d.settled_at e d.contact
  unfolding deliver_entry
  deliver_entry-row d x due at same = settle-row d.settled_at d.contact x (rw due at at) same
