-- ===== src/Outbox/Enqueued.antt =====
-- A command that has just been enqueued.
use mathlib.Core.Path.{subst}
use Prim.Native.Nat.{zero, suc}
use text.Mathlib.Text.{◌==◌}
use cliqhub_core.Prelude.{
  ℕ, ◌<◌, String, true, false, ◌≡◌, ◌≢◌, refl, sym, ◌∙◌, In, In-append_last, Option, none, some,
  if◌then◌else◌, Bool-cases, inl, inr, arith, eq_iff,
}
use cliqhub_core.Json.{Json, Fields, end, field, str, get_field, get_prop, set_field}
use cliqhub_core.Outbox.{Entry, Store}
use cliqhub_core.Outbox.Delivery.{
  command_outbox_enqueue, max_or_default, is_pending, is_backing_off,
}

one_key :
    (fs : Fields) (key k : String) (v w : Json)
    → (if key == k then v else get_field fs k)
      ≡ (if key == k then v else if key == k then w else get_field fs k)
one_key fs key k v w = elim (Bool-cases (key == k)) [ inl t ↦ rw t refl | inr n ↦ rw n refl ]

-- Two different keys: no third one is both.
not_both : (j key k : String) → (j == key) ≡ false → (j == k) ≡ true → (key == k) ≡ false
not_both j key k n t = elim (Bool-cases (key == k)) [
  | inl u ↦
      let j_k : j ≡ k = ground (arith, eq_iff j k) in
      let key_k : key ≡ k = ground (arith, eq_iff key k) in
      let j_key : j ≡ key = j_k ∙ sym key_k in absurd (ground (arith, eq_iff j key))
  | inr m ↦ m
]

get_field-set_field :
    (fs : Fields) (key k : String) (v : Json)
    → get_field (set_field fs key v) k ≡ (if key == k then v else get_field fs k)
unfolding get_field
get_field-set_field end key k v = refl
get_field-set_field (field j w fs) key k v = elim (Bool-cases (j == key)) [
  | inl t ↦
      let same : j ≡ key = ground (arith, eq_iff j key) in
      rw t (
        subst
          (λ z.
            (if z == k then v else get_field fs k)
            ≡ (if key == k then v else if z == k then w else get_field fs k))
          (sym same) (one_key fs key k v w))
  | inr n ↦ rw n (elim (Bool-cases (j == k)) [
    | inl t ↦ rw (t, not_both j key k n t) refl
    | inr m ↦ rw m (get_field-set_field fs key k v)
  ])
]

has_room : (o : Option ℕ) → o ≢ some 0 → 0 < max_or_default o
has_room none h = omega arith
has_room (some zero) h = absurd (h refl)
has_room (some (suc n)) h = omega arith

-- A command that is enqueued with room for a try stands in the outbox, for its daemon and endpoint;
-- its payload carries its own transaction id and is the caller's in each other field; and it is
-- pending, and backs off at no time.
pub command_outbox_enqueue-IsPending :
    (tx_id : String) (now : ℕ) (daemon_id endpoint : String) (payload : Fields)
    (max_attempts deliver_until : Option ℕ) (s : Store)
    → max_attempts ≢ some 0
    → (e : Entry) × In e
        (command_outbox_enqueue tx_id now daemon_id endpoint payload max_attempts deliver_until
          s).outbox
      × (e.tx_id ≡ tx_id)
      × (e.daemon_id ≡ daemon_id)
      × (e.endpoint ≡ endpoint)
      × (get_prop e.payload "tx_id" ≡ str tx_id)
      × ((k : String) → k ≢ "tx_id" → get_prop e.payload k ≡ get_field payload k)
      × ((later : ℕ) → (is_pending later e ≡ true) × (is_backing_off later e ≡ false))
unfolding command_outbox_enqueue get_prop is_backing_off
command_outbox_enqueue-IsPending tx_id now daemon_id endpoint payload max_attempts deliver_until s
      some_try =
    (
      _,
      In-append_last s.outbox _,
      refl,
      refl,
      refl,
      get_field-set_field payload "tx_id" "tx_id" (str tx_id),
      λ k other. get_field-set_field payload "tx_id" k (str tx_id) ∙ elsewhere k other,
      λ later.
          let room : 0 < max_or_default max_attempts = has_room max_attempts some_try in
          (ground arith, ground arith),
    )
  where
    elsewhere :
        (k : String)
        → k ≢ "tx_id"
        → (if "tx_id" == k then str tx_id else get_field payload k) ≡ get_field payload k
    elsewhere k other = elim (Bool-cases ("tx_id" == k)) [
      | inl t ↦ absurd (other (sym (ground (arith, eq_iff "tx_id" k))))
      | inr n ↦ rw n refl
    ]
