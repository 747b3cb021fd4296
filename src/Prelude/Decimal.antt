-- ===== src/Prelude/Decimal.antt =====
-- Numbers as text.
use Prim.Native.Nat.{ℕ, zero, suc, ◌/◌, ◌%◌}
use Prim.Native.String.{String, ◌++◌}
use mathlib.Core.Path.{◌≡◌, refl}
use cliqhub_core.Prelude.Tests.{if◌then◌else◌, ltb, eqb}

-- A number in decimal.
digit : ℕ → String
digit n =
    if eqb n 0
    then "0"
    else if eqb n 1
    then "1"
    else if eqb n 2
    then "2"
    else if eqb n 3
    then "3"
    else if eqb n 4
    then "4"
    else if eqb n 5
    then "5"
    else if eqb n 6
    then "6"
    else if eqb n 7
    then "7"
    else if eqb n 8
    then "8"
    else "9"

-- The last `fuel` digits; a number has no more digits than its value plus one.
digits : ℕ → ℕ → String
unfolding digit
digits zero n = ""
digits (suc fuel) n =
    let rest = digits fuel (n / 10) in if ltb n 10 then digit n else rest ++ digit (n % 10)

unfoldable pub print : ℕ → String
unfolding digits
print n = digits (suc n) n

-- `String(n).padStart(width, '0')`, for a number of at most `width` digits.
unfoldable pub padded : ℕ → ℕ → String
unfolding digit
padded zero n = ""
padded (suc width) n = padded width (n / 10) ++ digit (n % 10)

print_example : print 404 ≡ "404"
unfolding print
print_example = refl
