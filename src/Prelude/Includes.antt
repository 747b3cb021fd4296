-- ===== src/Prelude/Includes.antt =====
-- `includes` of a filtered list, and as membership.
use mathlib.Core.Path.{◌≡◌, refl}
use mathlib.Core.Logic.{◌↔◌, inl, inr}
use mathlib.Core.Bool.{Bool, true, false, ◌&&◌}
use mathlib.Core.List.{List, [], ◌∷◌, ◌++◌}
use native.Mathlib.Omega.{arith}
use Prim.Native.String.{String}
use text.Mathlib.Text.{◌==◌}
use text.Mathlib.TextEquality.{eq_iff}
use cliqhub_core.Prelude.Tests.{Bool-cases, if◌then◌else◌}
use cliqhub_core.Prelude.Lists.{filter, In}
use cliqhub_core.Prelude.Text.{includes}

-- The two texts are equal, where the test says so.
pub same : (a b : String) → (a == b) ≡ true → a ≡ b
same a b h = (eq_iff a b).0 h

pub same_refl : (a : String) → (a == a) ≡ true
same_refl a = (eq_iff a a).1 refl

pub includes-filter :
    (p : String → Bool) (xs : List String) (x : String)
    → includes (filter p xs) x ≡ (includes xs x && p x)
unfolding includes
includes-filter p [] x = refl
includes-filter p (y ∷ ys) x = elim (Bool-cases (p y)) [
  | inl t ↦ elim (Bool-cases (y == x)) [
    | inl e ↦ let q : p x ≡ true = rw (same y x e) at t in ground (arith, includes-filter p ys x)
    | inr n ↦ ground (arith, includes-filter p ys x)
  ]
  | inr f ↦ elim (Bool-cases (y == x)) [
    | inl e ↦ let q : p x ≡ false = rw (same y x e) at f in ground (arith, includes-filter p ys x)
    | inr n ↦ ground (arith, includes-filter p ys x)
  ]
]

pub includes-In : (xs : List String) (x : String) → includes xs x ≡ true → In x xs
unfolding includes
includes-In [] x h = cc
includes-In (y ∷ ys) x h = elim (Bool-cases (y == x)) [
  | inl e ↦ inl (same y x e)
  | inr n ↦ inr (includes-In ys x (ground arith))
]

pub In-includes : (xs : List String) (x : String) → In x xs → includes xs x ≡ true
unfolding includes
In-includes [] x at = absurd at
In-includes (y ∷ ys) x (inl e) = rw (e, same_refl x)
In-includes (y ∷ ys) x (inr at) = ground (arith, In-includes ys x at)

pub includes_iff : (xs : List String) (x : String) → (includes xs x ≡ true) ↔ In x xs
includes_iff xs x = (includes-In xs x, In-includes xs x)

-- `[...new Set(xs)]`: each element at its first place.
distinct_onto : List String → List String → List String
unfolding includes
distinct_onto out [] = out
distinct_onto out (x ∷ xs) = distinct_onto (if includes out x then out else out ++ x ∷ []) xs

unfoldable pub distinct : List String → List String
unfolding distinct_onto
distinct xs = distinct_onto [] xs
