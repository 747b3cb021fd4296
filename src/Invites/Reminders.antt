-- ===== src/Invites/Reminders.antt =====
-- invite_rules.ts, `reminder_due`.
use Prim.Native.Nat.{zero, suc}
use cliqhub_core.Prelude.{
  ℕ, ◌+◌, ◌-◌, ◌<◌, ◌≤◌, ◌≡◌, List, [], ◌∷◌, Option, none, some, leb, ltb, ltb→lt, length,
  if◌then◌else◌, Bool-cases, inl, inr, arith,
}
use cliqhub_core.Invites.{Invite}

-- `xs.slice(n)`.
abbrev pub drop : ℕ → List ℕ → List ℕ
drop zero xs = xs
drop (suc n) [] = []
drop (suc n) (x ∷ xs) = drop n xs

-- The loop, on the offsets from `next` on.
abbrev pub advance : ℕ → ℕ → List ℕ → ℕ
advance left next [] = next
advance left next (offset ∷ rest) =
    let further = advance left (suc next) rest in if leb left offset then further else next

unfoldable pub reminder_due : List ℕ → Invite → ℕ → Option ℕ
reminder_due offsets i now =
    let next = advance (i.expires_at - now) i.reminders_sent (drop i.reminders_sent offsets) in
    if leb i.expires_at now then none else if ltb i.reminders_sent next then some next else none

advance-bound :
    (left next : ℕ) (offsets : List ℕ) → advance left next offsets ≤ next + length offsets
advance-bound left next [] = omega arith
advance-bound left next (o ∷ os) = elim (Bool-cases (leb left o)) [
  | inl t ↦ rw t (omega (arith, advance-bound left (suc next) os))
  | inr n ↦ rw n (omega arith)
]

length-drop : (n : ℕ) (xs : List ℕ) → length (drop n xs) ≡ length xs - n
length-drop zero xs = omega arith
length-drop (suc n) [] = omega arith
length-drop (suc n) (x ∷ xs) = omega (arith, length-drop n xs)

-- A due reminder takes the counter up, and not past the number of the reminders.
pub reminder_due-bound :
    (offsets : List ℕ) (i : Invite) (now n : ℕ)
    → reminder_due offsets i now ≡ some n
    → (i.reminders_sent < n) × (n ≤ length offsets)
unfolding reminder_due
reminder_due-bound offsets i now n e = elim (Bool-cases (leb i.expires_at now)) [
  | inl t ↦ absurd (no_number (rw t at e))
  | inr f ↦ elim (Bool-cases (ltb i.reminders_sent next)) [
    | inr m ↦ absurd (no_number (rw (f, m) at e))
    | inl l ↦
        let next_n : next ≡ n = one_number next n (rw (f, l) at e) in
        let bound = advance-bound left i.reminders_sent (drop i.reminders_sent offsets) in
        let count = length-drop i.reminders_sent offsets in
        let late = ltb→lt i.reminders_sent next l in (omega arith, omega arith)
  ]
]
  where
    left : ℕ
    left = i.expires_at - now

    next : ℕ
    next = advance left i.reminders_sent (drop i.reminders_sent offsets)

    no_number : none ≡ some n → ⊥
    no_number q = cc

    one_number : (a b : ℕ) → some a ≡ some b → a ≡ b
    one_number a b q = cc
