-- ===== src/Hugs/Settled.antt =====
-- A hug that has ended, across all steps.
use text.Mathlib.Text.{◌==◌}
use mathlib.Core.Path.{subst}
use cliqhub_core.Prelude.{
  ℕ, String, Bool, true, false, ◌≡◌, ◌≢◌, refl, sym, ap, ◌∙◌, List, [], ◌∷◌, In, Option, none, some,
  if◌then◌else◌, Bool-cases, inl, inr, arith, eq_iff, update_where, In-update_where_intro,
  In-update_where_elim, leb,
}
use cliqhub_core.Hugs.{
  Hug, HugStatus, open_hug, closed, expired, cancelled, HugStore, HugError, find_hug, is_open,
}
use cliqhub_core.Hugs.Parts.{assert_answerable}

-- The hug is in the table, and each row of its id has this status, outcome and time of closing.
pub data Settled (id : String) (status : HugStatus) (outcome : Option String) (closed_at : Option ℕ)
    : List Hug → Type 0 where
  settled :
      (hugs : List Hug) (h : Hug)
      → In h hugs
      → h.id ≡ id
      → ((g : Hug)
          → In g hugs
          → g.id ≡ id
          → (g.status ≡ status) × (g.outcome ≡ outcome) × (g.closed_at ≡ closed_at))
      → Settled id status outcome closed_at hugs

pub find_hug-In :
    (id : String) (hugs : List Hug) (h : Hug) → find_hug id hugs ≡ some h → In h hugs × (h.id ≡ id)
find_hug-In id [] h e = cc
find_hug-In id (x ∷ xs) h e = elim (Bool-cases (x.id == id)) [
  | inl t ↦
      let q : x ≡ h = some_same x h (rw t at e) in
      let x_id : x.id ≡ id = (eq_iff x.id id).0 t in (inl q, sym (ap (λ z. z.id) q) ∙ x_id)
  | inr n ↦ let (at, same) = find_hug-In id xs h (rw n at e) in (inr at, same)
]
  where
    some_same : (a b : Hug) → some a ≡ some b → a ≡ b
    some_same a b q = cc

pub find_hug-none :
    (id : String) (hugs : List Hug) (h : Hug) → find_hug id hugs ≡ none → In h hugs → h.id ≢ id
find_hug-none id [] h e at q = absurd at
find_hug-none id (x ∷ xs) h e at q = elim (Bool-cases (x.id == id)) [
  | inl t ↦ absurd (some_none (rw t at e))
  | inr n ↦ elim at [
    | inl p ↦ absurd (ground (arith, eq_iff x.id id, ap (λ z. z.id) p ∙ q))
    | inr i ↦ find_hug-none id xs h (rw n at e) i q
  ]
]
  where
    some_none : some x ≡ none → ⊥
    some_none p = cc

pub answerable-is_open :
    (h : Hug) (now : ℕ) → assert_answerable h now ≡ none → is_open h.status ≡ true
unfolding assert_answerable
answerable-is_open h now e = by_status h.status e
  where
    by_status :
        (s : HugStatus)
        → elim s [
          | HugStatus.expired ↦ some HugError.gone
          | HugStatus.open_hug ↦ if leb h.expires_at now then some HugError.gone else none
          | HugStatus.closed ↦ some HugError.conflict
          | HugStatus.cancelled ↦ some HugError.conflict
        ]
          ≡ none
        → is_open s ≡ true
    by_status open_hug q = refl
    by_status closed q = cc
    by_status expired q = cc
    by_status cancelled q = cc

module _ (id : String) (status : HugStatus) (outcome : Option String) (closed_at : Option ℕ)
    (is_over : is_open status ≡ false) where
  abbrev pub IsSettled : List Hug → Type 0
  IsSettled = Settled id status outcome closed_at

  -- A row of the hug is not open.
  pub settled-over :
      (hugs : List Hug) (h : Hug)
      → IsSettled hugs
      → In h hugs
      → h.id ≡ id
      → is_open h.status ≡ true
      → ⊥
  settled-over hugs h (settled hugs' g there same all) at h_id opened =
      let (h_status, _, _) = all h at h_id in
      let over : is_open h.status ≡ false = rw h_status is_over in absurd (ground arith)

  -- A change that keeps ids, and how a row that is not open ended.
  abbrev pub Keeps : (Hug → Bool) → (Hug → Hug) → Type 0
  Keeps p f =
      (x : Hug)
      → p x ≡ true
      → ((f x).id ≡ x.id)
        × (is_open x.status ≡ false
            → ((f x).status ≡ x.status)
              × ((f x).outcome ≡ x.outcome)
              × ((f x).closed_at ≡ x.closed_at))

  pub Changed-Settled :
      (p : Hug → Bool) (f : Hug → Hug) (s t : HugStore)
      → Keeps p f
      → t.hugs ≡ update_where p f s.hugs
      → IsSettled s.hugs
      → IsSettled t.hugs
  Changed-Settled p f s t keeps after (settled hugs h at same all) = subst IsSettled (sym after) (
      settled (update_where p f hugs) (if p h then f h else h) (In-update_where_intro p f h hugs at)
        (changed_id h ∙ same)
        λ g i g_id.
          let (z, j, q) = In-update_where_elim p f g hugs i in
          let z_id : z.id ≡ id = sym (changed_id z) ∙ (sym (ap (λ w. w.id) q) ∙ g_id) in
          let (z_status, z_outcome, z_closed) = all z j z_id in
          let over : is_open z.status ≡ false = rw z_status is_over in
          let (k_status, k_outcome, k_closed) = changed_end z over in
          (
            ap (λ w. w.status) q ∙ (k_status ∙ z_status),
            ap (λ w. w.outcome) q ∙ (k_outcome ∙ z_outcome),
            ap (λ w. w.closed_at) q ∙ (k_closed ∙ z_closed),
          ))
    where
      changed_id : (x : Hug) → (if p x then f x else x).id ≡ x.id
      changed_id x = elim (Bool-cases (p x)) [ inl t ↦ rw t ((keeps x t).0) | inr n ↦ rw n refl ]

      changed_end :
          (x : Hug)
          → is_open x.status ≡ false
          → ((if p x then f x else x).status ≡ x.status)
            × ((if p x then f x else x).outcome ≡ x.outcome)
            × ((if p x then f x else x).closed_at ≡ x.closed_at)
      changed_end x over = elim (Bool-cases (p x)) [
        | inl t ↦ rw t ((keeps x t).1 over)
        | inr n ↦ rw n (refl, refl, refl)
      ]
