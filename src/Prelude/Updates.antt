-- ===== src/Prelude/Updates.antt =====
-- `UPDATE … SET f WHERE p` on a table, and what it leaves there.
use mathlib.Core.Path.{◌≡◌, refl, sym, ap}
use mathlib.Core.Logic.{inl, inr}
use mathlib.Core.Bool.{Bool}
use mathlib.Core.List.{List, [], ◌∷◌}
use cliqhub_core.Prelude.Tests.{if◌then◌else◌}
use cliqhub_core.Prelude.Lists.{In}

unfoldable pub update_where : {A : Type 0} → (A → Bool) → (A → A) → List A → List A
update_where p f [] = []
update_where p f (x ∷ xs) = (if p x then f x else x) ∷ update_where p f xs

module _ {A : Type 0} (p : A → Bool) (f : A → A) where
  -- Every row is still there, changed where the condition holds.
  pub In-update_where_intro :
      (x : A) (xs : List A) → In x xs → In (if p x then f x else x) (update_where p f xs)
  unfolding update_where
  In-update_where_intro x [] at = absurd at
  In-update_where_intro x (y ∷ ys) (inl e) = inl (ap (λ z. if p z then f z else z) e)
  In-update_where_intro x (y ∷ ys) (inr at) = inr (In-update_where_intro x ys at)

  -- And there is no other row.
  pub In-update_where_elim :
      (y : A) (xs : List A)
      → In y (update_where p f xs)
      → (x : A) × In x xs × (y ≡ (if p x then f x else x))
  unfolding update_where
  In-update_where_elim y [] at = absurd at
  In-update_where_elim y (x ∷ xs) (inl e) = (x, inl refl, sym e)
  In-update_where_elim y (x ∷ xs) (inr at) =
      let (z, i, e) = In-update_where_elim y xs at in (z, inr i, e)
