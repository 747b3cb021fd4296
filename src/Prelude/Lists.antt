-- ===== src/Prelude/Lists.antt =====
-- Lists measured by native numbers, Boolean searches, and membership with its position kept.
use Prim.Native.Nat.{ℕ, suc}
use mathlib.Core.Path.{◌≡◌, refl}
use mathlib.Core.Logic.{◌⊎◌, ◌↔◌, inl, inr}
use mathlib.Core.Bool.{Bool, true, false, ◌&&◌, ◌||◌}
use mathlib.Core.List.{List, [], ◌∷◌, ◌++◌}
use native.Mathlib.Omega.{arith}
use cliqhub_core.Prelude.Tests.{if◌then◌else◌, Bool-cases}

module _ {ℓ} {A : Type ℓ} where
  abbrev pub length : List A → ℕ
  length [] = 0
  length (x ∷ xs) = suc (length xs)

  -- `xs.some(p)` and `xs.every(p)`.
  abbrev pub any : (A → Bool) → List A → Bool
  any p [] = false
  any p (x ∷ xs) = p x || any p xs

  abbrev pub all : (A → Bool) → List A → Bool
  all p [] = true
  all p (x ∷ xs) = p x && all p xs

  -- `xs.filter(p)`.
  abbrev pub filter : (A → Bool) → List A → List A
  filter p [] = []
  filter p (x ∷ xs) = if p x then x ∷ filter p xs else filter p xs

-- `a` stands in the list.
abbrev pub In : {A : Type 0} → A → List A → Type 0
In a [] = ⊥
In a (x ∷ xs) = (x ≡ a) ⊎ In a xs

module _ {A : Type 0} where
  pub In-append_left : (x : A) (xs ys : List A) → In x xs → In x (xs ++ ys)
  In-append_left x [] ys at = absurd at
  In-append_left x (z ∷ zs) ys (inl e) = inl e
  In-append_left x (z ∷ zs) ys (inr at) = inr (In-append_left x zs ys at)

  pub In-append_last : (xs : List A) (x : A) → In x (xs ++ x ∷ [])
  In-append_last [] x = inl refl
  In-append_last (y ∷ ys) x = inr (In-append_last ys x)

  pub In-append_elim : (x : A) (xs ys : List A) → In x (xs ++ ys) → In x xs ⊎ In x ys
  In-append_elim x [] ys at = inr at
  In-append_elim x (z ∷ zs) ys (inl e) = inl (inl e)
  In-append_elim x (z ∷ zs) ys (inr at) = elim (In-append_elim x zs ys at) [
    | inl i ↦ inl (inr i)
    | inr j ↦ inr j
  ]

module _ {ℓ κ} {A : Type ℓ} (P : A → Type κ) where
  abbrev pub All : List A → Type κ
  All [] = Unit
  All (x ∷ xs) = P x × All xs

module _ {A : Type 0} (p : A → Bool) where
  pub any_intro : (x : A) (xs : List A) → In x xs → p x ≡ true → any p xs ≡ true
  any_intro x [] at h = absurd at
  any_intro x (y ∷ ys) (inl e) h = rw (e, h)
  any_intro x (y ∷ ys) (inr at) h = ground (arith, any_intro x ys at h)

  pub any_elim : (xs : List A) → any p xs ≡ true → (x : A) × In x xs × (p x ≡ true)
  any_elim [] h = cc
  any_elim (x ∷ xs) h = elim (Bool-cases (p x)) [
    | inl y ↦ (x, inl refl, y)
    | inr n ↦ let (z, at, y) = any_elim xs (ground arith) in (z, inr at, y)
  ]

  -- `some` finds exactly an element that passes.
  pub any_iff : (xs : List A) → (any p xs ≡ true) ↔ ((x : A) × In x xs × (p x ≡ true))
  any_iff xs = (any_elim xs, λ (x, at, h). any_intro x xs at h)

  pub all_intro : (xs : List A) → ((x : A) → In x xs → p x ≡ true) → all p xs ≡ true
  all_intro [] h = refl
  all_intro (x ∷ xs) h = rw (h x (inl refl)) (all_intro xs (λ y at. h y (inr at)))

  pub all_elim : (xs : List A) → all p xs ≡ true → (x : A) → In x xs → p x ≡ true
  all_elim [] h x at = absurd at
  all_elim (y ∷ ys) h x (inl e) = rw (← e) (ground arith)
  all_elim (y ∷ ys) h x (inr at) = all_elim ys (ground arith) x at

  -- `every` holds exactly when each element passes.
  pub all_iff : (xs : List A) → (all p xs ≡ true) ↔ ((x : A) → In x xs → p x ≡ true)
  all_iff xs = (all_elim xs, all_intro xs)

  In-filter_elim : (x : A) (xs : List A) → In x (filter p xs) → In x xs × (p x ≡ true)
  In-filter_elim x [] h = absurd h
  In-filter_elim x (y ∷ ys) h = elim (Bool-cases (p y)) [
    | inl t ↦ elim (rw t at h) [
      | inl e ↦ (inl e, rw (← e) t)
      | inr at ↦ let (i, k) = In-filter_elim x ys at in (inr i, k)
    ]
    | inr f ↦ let (i, k) = In-filter_elim x ys (rw f at h) in (inr i, k)
  ]

  In-filter_intro : (x : A) (xs : List A) → In x xs → p x ≡ true → In x (filter p xs)
  In-filter_intro x [] at h = at
  In-filter_intro x (y ∷ ys) (inl e) h = let t : p y ≡ true = rw e h in rw t (inl e)
  In-filter_intro x (y ∷ ys) (inr at) h = elim (Bool-cases (p y)) [
    | inl t ↦ rw t (inr (In-filter_intro x ys at h))
    | inr f ↦ rw f (In-filter_intro x ys at h)
  ]

  -- `filter` keeps exactly the elements that pass.
  pub In-filter_iff : (x : A) (xs : List A) → In x (filter p xs) ↔ (In x xs × (p x ≡ true))
  In-filter_iff x xs = (In-filter_elim x xs, λ (at, h). In-filter_intro x xs at h)
