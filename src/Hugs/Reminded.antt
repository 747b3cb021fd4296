-- ===== src/Hugs/Reminded.antt =====
-- When the next reminder is due.
use Prim.Native.Nat.{min}
use mathlib.Core.Path.{subst}
use cliqhub_core.Prelude.{
  ℕ, ◌+◌, ◌*◌, ◌<◌, ◌≤◌, ap, leb, Option-cases, false, ◌≡◌, refl, sym, List, [], ◌∷◌, ◌++◌, In,
  In-append_elim, In-append_left, In-filter_iff, Option, none, some, map, ltb, eqb, Bool-cases, inl,
  inr, arith,
}
use cliqhub_core.Hugs.{Reminders}
use cliqhub_core.Hugs.Remind.{next_remind_at, or_time, smallest, at_times, every_time, before}

some_is : (x y : ℕ) → some x ≡ some y → x ≡ y
some_is x y e = cc

smallest-least :
    (xs : List ℕ) (t : ℕ) → smallest xs ≡ some t → In t xs × ((x : ℕ) → In x xs → t ≤ x)
smallest-least [] t e = cc
smallest-least (x ∷ xs) t e = elim (Option-cases (smallest xs)) [
  | inl n ↦
      let x_t : x ≡ t = some_is x t (rw n at e) in
      (inl x_t, λ y at. elim at [ inl q ↦ omega arith | inr i ↦ absurd (none_in xs n y i) ])
  | inr (m, q) ↦
      let (m_in, least) = smallest-least xs m q in
      let min_t : min x m ≡ t = some_is (min x m) t (rw q at e) in
      (
        elim (Bool-cases (leb x m)) [
          | inl l ↦ inl (ground arith)
          | inr l ↦ let m_t : m ≡ t = ground arith in inr (subst (λ z. In z xs) m_t m_in)
        ],
        λ y at. elim at [ inl p ↦ omega arith | inr i ↦ let b = least y i in omega arith ],
      )
]
  where
    none_in : (ys : List ℕ) → smallest ys ≡ none → (y : ℕ) → In y ys → ⊥
    none_in [] n y at = at
    none_in (z ∷ zs) n y at = cc

every_time-after : (since : ℕ) (o : Option ℕ) (t : ℕ) → In t (every_time since o) → since < t
every_time-after since none t at = absurd at
every_time-after since (some m) t at = elim (Bool-cases (eqb m 0)) [
  | inl z ↦ absurd (rw z at at)
  | inr n ↦ elim (rw n at at) [ inl e ↦ ground arith | inr j ↦ absurd j ]
]

every_time-In : (since m : ℕ) → 0 < m → In (since + m * 60000) (every_time since (some m))
every_time-In since m positive = let n : eqb m 0 ≡ false = ground arith in rw n (inl refl)

at_times-In :
    (created_at since m : ℕ) (ms : List ℕ)
    → In m ms
    → since < created_at + m * 60000
    → In (created_at + m * 60000) (at_times created_at since ms)
at_times-In created_at since m ms at late =
    (In-filter_iff (ltb since) (created_at + m * 60000) (map (λ x. created_at + x * 60000) ms)).1
      (mapped ms at, ground arith)
  where
    mapped :
        (xs : List ℕ) → In m xs → In (created_at + m * 60000) (map (λ x. created_at + x * 60000) xs)
    mapped [] i = i
    mapped (x ∷ xs) (inl e) = inl (ap (λ z. created_at + z * 60000) e)
    mapped (x ∷ xs) (inr i) = inr (mapped xs i)

In-append_right : (x : ℕ) (xs ys : List ℕ) → In x ys → In x (xs ++ ys)
In-append_right x [] ys at = at
In-append_right x (z ∷ zs) ys at = inr (In-append_right x zs ys at)

before-some :
    (expires_at : ℕ) (o : Option ℕ) (t : ℕ)
    → before expires_at o ≡ some t
    → (o ≡ some t) × (t < expires_at)
before-some expires_at none t e = cc
before-some expires_at (some x) t e = elim (Bool-cases (ltb x expires_at)) [
  | inl l ↦ let x_t : x ≡ t = some_is x t (rw l at e) in (ap some x_t, ground arith)
  | inr n ↦ absurd (none_some (rw n at e))
]
  where
    none_some : none ≡ some t → ⊥
    none_some q = cc

-- The next reminder comes after the last one (or after the opening), before the hug expires, and no
-- later than each nudge of `at_min` that is still to come and than the tick of `every_min`.
pub next_remind_at-between :
    (created_at : ℕ) (r : Reminders) (last : Option ℕ) (expires_at t : ℕ)
    → next_remind_at created_at (some r) last expires_at ≡ some t
    → (or_time last created_at < t)
      × (t < expires_at)
      × ((m : ℕ)
          → In m r.at_min
          → or_time last created_at < created_at + m * 60000
          → t ≤ created_at + m * 60000)
      × ((m : ℕ) → r.every_min ≡ some m → 0 < m → t ≤ or_time last created_at + m * 60000)
unfolding next_remind_at
next_remind_at-between created_at r last expires_at t e =
    let (found, early) = before-some expires_at (smallest (nudges ++ ticks)) t e in
    let (at, least) = smallest-least (nudges ++ ticks) t found in
    (
      elim (In-append_elim t nudges ticks at) [
        | inl i ↦
            let late =
              ((In-filter_iff (ltb since) t (map (λ m. created_at + m * 60000) r.at_min)).0 i).1 in
            ground arith
        | inr i ↦ every_time-after since r.every_min t i
      ],
      early,
      λ m i late.
          least (created_at + m * 60000)
            (In-append_left _ nudges ticks (at_times-In created_at since m r.at_min i late)),
      λ m q positive. least (since + m * 60000) (
          In-append_right _ nudges ticks (
            subst (λ o. In (since + m * 60000) (every_time since o)) (sym q)
              (every_time-In since m positive))),
    )
  where
    since : ℕ
    since = or_time last created_at

    nudges : List ℕ
    nudges = at_times created_at since r.at_min

    ticks : List ℕ
    ticks = every_time since r.every_min
