-- ===== src/Outbox/Batch.antt =====
-- The poll's query: which rows a cycle works on.
use Prim.Native.Nat.{zero, suc}
use cliqhub_core.Prelude.{
  ap, ℕ, ◌≤◌, true, ◌≡◌, refl, List, [], ◌∷◌, In, All, inl, inr, ◌⊎◌, Bool-cases, arith, leb,
  filter, In-filter_iff, length,
}
use cliqhub_core.Outbox.{Entry}
use cliqhub_core.Outbox.Delivery.{is_pending, insert_by_age, by_age, limit, pending_batch}

-- `e` is at least as old as each row.
abbrev pub Oldest : Entry → List Entry → Type 0
Oldest e es = All (λ x. e.created_at ≤ x.created_at) es

abbrev IsByAge : List Entry → Type 0
IsByAge [] = Unit
IsByAge (e ∷ es) = Oldest e es × IsByAge es

Oldest-trans :
    (e x : Entry) (xs : List Entry) → e.created_at ≤ x.created_at → Oldest x xs → Oldest e xs
Oldest-trans e x [] le h = tt
Oldest-trans e x (y ∷ ys) le (h, hs) = (omega arith, Oldest-trans e x ys le hs)

Oldest-insert :
    (x e : Entry) (es : List Entry)
    → x.created_at ≤ e.created_at
    → Oldest x es
    → Oldest x (insert_by_age e es)
unfolding insert_by_age
Oldest-insert x e [] le h = (le, tt)
Oldest-insert x e (y ∷ ys) le (h, hs) = elim (Bool-cases (leb e.created_at y.created_at)) [
  | inl t ↦ rw t (le, (h, hs))
  | inr n ↦ rw n (h, Oldest-insert x e ys le hs)
]

insert-IsByAge : (e : Entry) (es : List Entry) → IsByAge es → IsByAge (insert_by_age e es)
unfolding insert_by_age
insert-IsByAge e [] h = (tt, tt)
insert-IsByAge e (x ∷ xs) (o, h) = elim (Bool-cases (leb e.created_at x.created_at)) [
  | inl t ↦
      let le : e.created_at ≤ x.created_at = ground arith in
      rw t ((le, Oldest-trans e x xs le o), (o, h))
  | inr n ↦
      let le : x.created_at ≤ e.created_at = ground arith in
      rw n (Oldest-insert x e xs le o, insert-IsByAge e xs h)
]

by_age-IsByAge : (es : List Entry) → IsByAge (by_age es)
unfolding by_age
by_age-IsByAge [] = tt
by_age-IsByAge (e ∷ es) = insert-IsByAge e (by_age es) (by_age-IsByAge es)

In-insert_elim : (x e : Entry) (es : List Entry) → In x (insert_by_age e es) → (e ≡ x) ⊎ In x es
unfolding insert_by_age
In-insert_elim x e [] at = at
In-insert_elim x e (y ∷ ys) at = elim (Bool-cases (leb e.created_at y.created_at)) [
  | inl t ↦ rw t at at
  | inr n ↦ elim (rw n at at) [
    | inl k ↦ inr (inl k)
    | inr i ↦ elim (In-insert_elim x e ys i) [ inl k ↦ inl k | inr j ↦ inr (inr j) ]
  ]
]

In-insert_intro : (x e : Entry) (es : List Entry) → (e ≡ x) ⊎ In x es → In x (insert_by_age e es)
unfolding insert_by_age
In-insert_intro x e [] at = at
In-insert_intro x e (y ∷ ys) at = elim (Bool-cases (leb e.created_at y.created_at)) [
  | inl t ↦ rw t at
  | inr n ↦ rw n (elim at [
    | inl k ↦ inr (In-insert_intro x e ys (inl k))
    | inr (inl k) ↦ inl k
    | inr (inr j) ↦ inr (In-insert_intro x e ys (inr j))
  ])
]

In-by_age_elim : (x : Entry) (es : List Entry) → In x (by_age es) → In x es
unfolding by_age
In-by_age_elim x [] at = at
In-by_age_elim x (e ∷ es) at = elim (In-insert_elim x e (by_age es) at) [
  | inl k ↦ inl k
  | inr i ↦ inr (In-by_age_elim x es i)
]

In-by_age_intro : (x : Entry) (es : List Entry) → In x es → In x (by_age es)
unfolding by_age
In-by_age_intro x [] at = at
In-by_age_intro x (e ∷ es) (inl k) = In-insert_intro x e (by_age es) (inl k)
In-by_age_intro x (e ∷ es) (inr i) = In-insert_intro x e (by_age es) (inr (In-by_age_intro x es i))

In-limit : (n : ℕ) (x : Entry) (es : List Entry) → In x (limit n es) → In x es
unfolding limit
In-limit zero x es at = absurd at
In-limit (suc n) x [] at = at
In-limit (suc n) x (e ∷ es) (inl k) = inl k
In-limit (suc n) x (e ∷ es) (inr at) = inr (In-limit n x es at)

length-limit : (n : ℕ) (es : List Entry) → length (limit n es) ≤ n
unfolding limit
length-limit zero es = omega arith
length-limit (suc n) [] = omega arith
length-limit (suc n) (e ∷ es) = let h = length-limit n es in omega arith

Oldest-In : (e x : Entry) (es : List Entry) → Oldest e es → In x es → e.created_at ≤ x.created_at
Oldest-In e x [] o at = absurd at
Oldest-In e x (y ∷ ys) (h, hs) (inl k) = rw (← k) h
Oldest-In e x (y ∷ ys) (h, hs) (inr at) = Oldest-In e x ys hs at

-- What the limit leaves out is no older than what it takes.
limit-oldest :
    (n : ℕ) (es : List Entry)
    → IsByAge es
    → (x : Entry) → In x es
    → In x (limit n es)
      ⊎ ((length (limit n es) ≡ n)
          × ((y : Entry) → In y (limit n es) → y.created_at ≤ x.created_at))
unfolding limit
limit-oldest zero es h x at = inr (refl, λ y i. absurd i)
limit-oldest (suc n) [] h x at = absurd at
limit-oldest (suc n) (e ∷ es) (o, h) x (inl k) = inl (inl k)
limit-oldest (suc n) (e ∷ es) (o, h) x (inr at) = elim (limit-oldest n es h x at) [
  | inl i ↦ inl (inr i)
  | inr (full, older) ↦
      inr (
        ap suc full,
        λ y i. elim i [ inl k ↦ rw (← k) (Oldest-In e x es o at) | inr j ↦ older y j ],
      )
]

-- A cycle works on at most 20 rows, each of them pending; and a pending row that is not among them is
-- left out only because the batch has its 20 rows, none of which was created after it.
pub pending_batch-oldest :
    (now : ℕ) (rows : List Entry)
    → (length (pending_batch now rows) ≤ 20)
      × ((x : Entry) → In x (pending_batch now rows) → In x rows × (is_pending now x ≡ true))
      × ((x : Entry)
          → In x rows
          → is_pending now x ≡ true
          → In x (pending_batch now rows)
            ⊎ ((length (pending_batch now rows) ≡ 20)
                × ((y : Entry) → In y (pending_batch now rows) → y.created_at ≤ x.created_at)))
unfolding pending_batch
pending_batch-oldest now rows =
    let wanted = filter (is_pending now) rows in
    (
      length-limit 20 (by_age wanted),
      λ x at.
          (In-filter_iff (is_pending now) x rows).0
            (In-by_age_elim x wanted (In-limit 20 x (by_age wanted) at)),
      λ x at h.
          limit-oldest 20 (by_age wanted) (by_age-IsByAge wanted) x
            (In-by_age_intro x wanted ((In-filter_iff (is_pending now) x rows).1 (at, h))),
    )
