-- ===== src/Outbox/Tries.antt =====
-- How often a command is tried: a delivery uses a try up, unless it waits for a daemon with no URL.
use cliqhub_core.Prelude.{
  ℕ, ◌-◌, ◌<◌, String, true, false, ◌≡◌, refl, sym, ◌∙◌, In, Option, none, some, Bool-cases, inl,
  inr, arith, is_none, ◌⊎◌,
}
use mathlib.Core.Path.{subst}
use cliqhub_core.Outbox.{Entry, Store}
use cliqhub_core.Outbox.Reply.{
  Reply, is_daemon_run_not_found, is_retryable_daemon_status, daemon_failure_message,
}
use cliqhub_core.Outbox.Delivery.{
  is_pending, is_backing_off, is_success, Contact, no_url, replied, threw, Delivery, deliver_entry,
  counted, exhausted, bumped,
}
use cliqhub_core.Outbox.Rows.{Only, row_after, row_after_reply, row_after_wait, deliver_entry-row}

abbrev pub tries_left : Entry → ℕ
tries_left e = e.max_attempts - e.attempts

-- Delivered, or with fewer tries left, and never kept alive beyond its tries.
abbrev pub IsCloser : Entry → Entry → Type 0
IsCloser e x =
    (x.deliver_until ≡ none) × ((is_none x.delivered_at ≡ false) ⊎ (tries_left x < tries_left e))

counted-IsCloser :
    (now : ℕ) (reason : String) (e : Entry)
    → e.attempts < e.max_attempts
    → e.deliver_until ≡ none
    → IsCloser e (counted now reason e)
counted-IsCloser now reason e more u = (u, inr (omega arith))

exhausted-IsCloser :
    (reason : String) (e : Entry) → e.attempts < e.max_attempts → IsCloser e (exhausted reason e)
exhausted-IsCloser reason e more = (refl, inr (omega arith))

reply-IsCloser :
    (now : ℕ) (e : Entry) (r : Reply)
    → e.attempts < e.max_attempts
    → e.deliver_until ≡ none
    → IsCloser e (row_after_reply now e r)
unfolding row_after_reply
reply-IsCloser now e r more u = elim (Bool-cases (is_success r.status)) [
  | inl t ↦ rw t (u, inl refl)
  | inr a ↦ rw a (elim (Bool-cases (is_daemon_run_not_found r.status r.body)) [
    | inl t ↦ rw t (exhausted-IsCloser (daemon_failure_message r) e more)
    | inr b ↦ rw b (elim (Bool-cases (is_retryable_daemon_status r.status)) [
      | inl t ↦ rw t (counted-IsCloser now (daemon_failure_message r) e more u)
      | inr n ↦ rw n (exhausted-IsCloser (daemon_failure_message r) e more)
    ])
  ])
]

wait-IsCloser :
    (now : ℕ) (e : Entry) (o : Option ℕ)
    → e.attempts < e.max_attempts
    → e.deliver_until ≡ none
    → o ≡ none
    → IsCloser e (row_after_wait now e o)
wait-IsCloser now e none more u w = counted-IsCloser now "no_public_url" e more u
wait-IsCloser now e (some until) more u w = cc

row_after-IsCloser :
    (now : ℕ) (e : Entry) (c : Contact)
    → e.attempts < e.max_attempts
    → e.deliver_until ≡ none
    → IsCloser e (row_after now e c)
unfolding row_after
row_after-IsCloser now e no_url more u = wait-IsCloser now e e.deliver_until more u u
row_after-IsCloser now e (replied r) more u = reply-IsCloser now e r more u
row_after-IsCloser now e (threw m) more u = counted-IsCloser now m e more u

-- Once its backoff is over, a delivery of a pending command that has no `deliver_until` leaves the
-- command's row delivered, or with fewer tries left, and with no `deliver_until`.
pub deliver_entry-IsCloser :
    (d : Delivery) (e : Entry) (s : Store)
    → Only e s.outbox
    → e.deliver_until ≡ none
    → e.attempts < e.max_attempts
    → is_backing_off d.checked_at e ≡ false
    → (x : Entry) → In x (deliver_entry d e s).outbox
    → x.tx_id ≡ e.tx_id
    → IsCloser e x
deliver_entry-IsCloser d e s only u more due x at same =
    subst (IsCloser e) (sym (deliver_entry-row e s only d x due at same))
      (row_after-IsCloser d.settled_at e d.contact more u)

wait-row_eq :
    (now : ℕ) (e : Entry) (o : Option ℕ) {u : ℕ}
    → o ≡ some u
    → row_after_wait now e o ≡ bumped now e
wait-row_eq now e none h = cc
wait-row_eq now e (some u) h = refl

bumped-IsPending :
    (now later : ℕ) (e : Entry)
    → e.delivered_at ≡ none
    → e.attempts < e.max_attempts
    → is_pending later (bumped now e) ≡ true
bumped-IsPending now later e n more = ground arith

-- A command with a `deliver_until` and tries left, whose daemon has no URL, uses no try up by a
-- delivery and is pending at every later time, the times after its `deliver_until` included.
pub deliver_entry-waits :
    (d : Delivery) (e : Entry) (s : Store) {until : ℕ}
    → Only e s.outbox
    → e.deliver_until ≡ some until
    → e.delivered_at ≡ none
    → e.attempts < e.max_attempts
    → is_backing_off d.checked_at e ≡ false
    → d.contact ≡ no_url
    → (x : Entry) → In x (deliver_entry d e s).outbox
    → x.tx_id ≡ e.tx_id
    → (x.attempts ≡ e.attempts) × ((later : ℕ) → is_pending later x ≡ true)
unfolding row_after
deliver_entry-waits d e s only u n more due away x at same =
    let x_is : x ≡ row_after d.settled_at e d.contact =
      deliver_entry-row e s only d x due at same in
    let waits : row_after d.settled_at e d.contact ≡ bumped d.settled_at e =
      subst (λ c. row_after d.settled_at e c ≡ bumped d.settled_at e) (sym away)
        (wait-row_eq d.settled_at e e.deliver_until u) in
    subst (λ y. (y.attempts ≡ e.attempts) × ((later : ℕ) → is_pending later y ≡ true))
      (sym (x_is ∙ waits)) (refl, λ later. bumped-IsPending d.settled_at later e n more)
