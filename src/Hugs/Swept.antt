-- ===== src/Hugs/Swept.antt =====
-- The sweep expires every overdue hug, a hundred at a time.
use Prim.Native.Nat.{zero, suc}
use cliqhub_core.Prelude.{
  ℕ, ◌-◌, ◌*◌, ◌≤◌, true, false, ◌≡◌, refl, List, [], ◌∷◌, In, filter, length, Bool-cases, inl, inr,
  arith, leb,
}
use cliqhub_core.Hugs.{Hug, HugStore, is_open}
use cliqhub_core.Hugs.Ended.{expiring, EndTimes, end_each, is_overdue, expire_due, limit_hugs}
use cliqhub_core.Hugs.Over.{IsOver, Follows, end_each-Follows, end_each-IsOver}

-- How many hugs are overdue at `now`.
abbrev pub overdue : ℕ → List Hug → ℕ
overdue now hugs = length (filter (is_overdue now) hugs)

still_overdue :
    (now : ℕ) (x y : Hug)
    → y.expires_at ≡ x.expires_at
    → (is_open x.status ≡ false → is_open y.status ≡ false)
    → is_overdue now x ≡ false
    → is_overdue now y ≡ false
still_overdue now x y same over n = elim (Bool-cases (is_open x.status)) [
  | inl t ↦ let late : leb y.expires_at now ≡ false = rw same (ground arith) in ground arith
  | inr m ↦ let k = over m in ground arith
]

-- The first `n` overdue hugs among `xs` have ended in `ys`.
abbrev Ended : ℕ → ℕ → List Hug → List Hug → Type 0
Ended now n xs ys = (h : Hug) → In h (limit_hugs n (filter (is_overdue now) xs)) → IsOver h.id ys

one_fewer :
    (now n : ℕ) (x y : Hug) (xs ys : List Hug)
    → y.id ≡ x.id
    → is_overdue now x ≡ true
    → ((k : ℕ) → Ended now k xs ys → overdue now ys ≤ overdue now xs - k)
    → Ended now n (x ∷ xs) (y ∷ ys)
    → overdue now (y ∷ ys) ≤ overdue now (x ∷ xs) - n
one_fewer now zero x y xs ys same t rest ended =
    let few = rest zero (λ g at. absurd at) in
    rw t (elim (Bool-cases (is_overdue now y)) [
      | inl u ↦ rw u (omega arith)
      | inr n ↦ rw n (omega arith)
    ])
one_fewer now (suc k) x y xs ys same t rest ended =
    let over : is_open y.status ≡ false = ended x (rw t (inl refl)) y (inl refl) same in
    let y_not : is_overdue now y ≡ false = ground arith in
    let few = rest k (λ g at z i. ended g (rw t (inr at)) z (inr i)) in rw (t, y_not) (omega arith)

fewer :
    (now n : ℕ) (xs ys : List Hug)
    → Follows xs ys
    → Ended now n xs ys
    → overdue now ys ≤ overdue now xs - n
fewer now n [] [] h ended = omega arith
fewer now n [] (y ∷ ys) h ended = absurd h
fewer now n (x ∷ xs) [] h ended = absurd h
fewer now n (x ∷ xs) (y ∷ ys) (a, b, c, h) ended = elim (Bool-cases (is_overdue now x)) [
  | inr m ↦
      let y_not : is_overdue now y ≡ false = still_overdue now x y b c m in
      rw (m, y_not) (fewer now n xs ys h (λ g at z i. ended g (rw m at) z (inr i)))
  | inl t ↦ one_fewer now n x y xs ys a t (λ k e. fewer now k xs ys h e) ended
]

expire_due-fewer :
    (met : Hug → EndTimes) (now : ℕ) (s : HugStore)
    → overdue now (expire_due met now s).hugs ≤ overdue now s.hugs - 100
unfolding expire_due
expire_due-fewer met now s =
    fewer now 100 s.hugs (end_each expiring met due s).hugs (end_each-Follows expiring met due s)
      (λ h at. end_each-IsOver expiring met due s h at)
  where
    due : List Hug
    due = limit_hugs 100 (filter (is_overdue now) s.hugs)

-- Several calls of `expire_due` with one time.
unfoldable pub expire_rounds : List (Hug → EndTimes) → ℕ → HugStore → HugStore
unfolding expire_due
expire_rounds [] now s = s
expire_rounds (met ∷ rounds) now s = expire_rounds rounds now (expire_due met now s)

-- One call of `expire_due` for each hundred overdue hugs leaves no hug open that was overdue.
pub expire_rounds-done :
    (rounds : List (Hug → EndTimes)) (now : ℕ) (s : HugStore)
    → overdue now s.hugs ≤ 100 * length rounds
    → overdue now (expire_rounds rounds now s).hugs ≡ 0
unfolding expire_rounds
expire_rounds-done [] now s few = omega arith
expire_rounds-done (met ∷ rounds) now s few =
    let step = expire_due-fewer met now s in
    expire_rounds-done rounds now (expire_due met now s) (omega arith)
