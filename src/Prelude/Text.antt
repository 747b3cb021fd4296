-- ===== src/Prelude/Text.antt =====
-- What the program uses of JavaScript's texts: `trim`, truth of an optional text, `endsWith`.
use Prim.Native.Nat.{ℕ}
use Prim.Native.Char.{Char, code}
use Prim.Native.String.{String, [], ◌∷◌, ◌++◌}
use mathlib.Core.Path.{◌≡◌, refl}
use mathlib.Core.Logic.{inl, inr}
use mathlib.Core.Bool.{Bool, true, false, ◌||◌, ◌&&◌}
use mathlib.Core.Option.{Option, none, some}
use mathlib.Core.List.{List, [], ◌∷◌}
use text.Mathlib.Text.{◌==◌}
use cliqhub_core.Prelude.Tests.{Bool-cases, leb, eqb, if◌then◌else◌}

-- White space and line ends, as `trim` removes them.
abbrev pub is_space : ℕ → Bool
is_space c =
    leb 9 c && leb c 13
    || eqb c 32
    || eqb c 0xa0
    || eqb c 0x1680
    || leb 0x2000 c && leb c 0x200a
    || eqb c 0x2028
    || eqb c 0x2029
    || eqb c 0x202f
    || eqb c 0x205f
    || eqb c 0x3000
    || eqb c 0xfeff

unfoldable pub trim_start : String → String
trim_start [] = []
trim_start (c ∷ s) = if is_space (code c) then trim_start s else c ∷ s

cons_unless_space : Char → String → String
cons_unless_space c [] = if is_space (code c) then [] else c ∷ []
cons_unless_space c (d ∷ s) = c ∷ d ∷ s

unfoldable pub trim_end : String → String
unfolding cons_unless_space
trim_end [] = []
trim_end (c ∷ s) = cons_unless_space c (trim_end s)

unfoldable pub trim : String → String
unfolding trim_start trim_end
trim s = trim_end (trim_start s)

-- A text used as a condition: the empty one is false.
abbrev pub is_empty : String → Bool
is_empty s = s == ""

-- An optional text used as a condition: `none` where it is missing or empty.
abbrev pub truthy : Option String → Option String
truthy none = none
truthy (some s) = if is_empty s then none else some s

pub truthy-some : (o : Option String) (s : String) → truthy o ≡ some s → o ≡ some s
truthy-some none s e = cc
truthy-some (some a) s e = elim (Bool-cases (is_empty a)) [
  | inl t ↦ absurd (none_not_some (rw t at e))
  | inr n ↦ rw n at e
]
  where
    none_not_some : none ≡ some s → ⊥
    none_not_some q = cc

-- `a + b`, next to the `++` of lists.
abbrev pub concat : String → String → String
concat a b = a ++ b

-- `s.endsWith(t)`.
unfoldable pub ends_with : String → String → Bool
ends_with [] t = [] == t
ends_with (c ∷ s) t = (c ∷ s) == t || ends_with s t

unfoldable pub includes : List String → String → Bool
includes [] a = false
includes (x ∷ xs) a = x == a || includes xs a

trim_example : trim " \ta b  " ≡ "a b"
unfolding trim
trim_example = refl

ends_with_example : ends_with "body.slug" ".slug" ≡ true
unfolding ends_with
ends_with_example = refl
