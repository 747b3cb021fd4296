-- ===== src/Queue/Exclusive.antt =====
-- A claim is exclusive, whatever other calls come between and however they interleave.
use text.Mathlib.Text.{◌==◌}
use mathlib.Core.Path.{subst}
use cliqhub_core.Prelude.{
  ℕ, String, Bool, true, false, ◌≡◌, refl, sym, ap, ◌∙◌, List, [], ◌∷◌, In, some, if◌then◌else◌,
  Bool-cases, inl, inr, arith, eq_iff, is_none, update_where, In-update_where_intro,
  In-update_where_elim, is_empty, trim,
}
use cliqhub_core.Queue.{
  Item, of_item, claim, take, returned, is_free, taken, claim_result, find_id, conflict,
}
use cliqhub_core.Queue.Owned.{
  Call, after_calls, Owned, owned, claimed-not_free, taken-Owned, calls-Owned,
}

take-Owned :
    (now : ℕ) (id daemon : String) (rows : List Item) (x : Item)
    → In x rows
    → is_free id x ≡ true
    → ((y : Item) → In y rows → y.id ≡ id → y ≡ x)
    → Owned id daemon (take now id daemon rows)
unfolding take
take-Owned now id daemon rows x at free only =
    owned (update_where (is_free id) (taken now daemon) rows)
      (if is_free id x then taken now daemon x else x)
      (In-update_where_intro (is_free id) (taken now daemon) x rows at)
      (rw free (ground (arith, eq_iff x.id id)))
      λ y i k.
        let (z, j, q) = In-update_where_elim (is_free id) (taken now daemon) y rows i in
        let z_id : z.id ≡ id = sym (if_id (is_free id z) z) ∙ (sym (ap (λ w. w.id) q) ∙ k) in
        let z_is : z ≡ x = only z j z_id in
        let z_free : is_free id z ≡ true = subst (λ w. is_free id w ≡ true) (sym z_is) free in
        let y_is : y ≡ taken now daemon z = rw z_free at q in ap (λ w. w.claimed_by) y_is
  where
    if_id : (b : Bool) (z : Item) → (if b then taken now daemon z else z).id ≡ z.id
    if_id true z = refl
    if_id false z = refl

none_returned :
    (now : ℕ) (id other : String) (rows : List Item) {daemon : String}
    → ((y : Item) → In y rows → y.id ≡ id → y.claimed_by ≡ some daemon)
    → returned now id other rows ≡ []
unfolding returned
none_returned now id other [] mine = refl
none_returned now id other (x ∷ xs) {daemon} mine = elim (Bool-cases (is_free id x)) [
  | inl free ↦
      let x_id : x.id ≡ id = ground (arith, eq_iff x.id id) in
      absurd (claimed-not_free id x (mine x (inl refl) x_id) free)
  | inr n ↦ rw n (none_returned now id other xs (λ y i. mine y (inr i)))
]

found-is_some :
    (id : String) (rows : List Item) (x : Item)
    → In x rows
    → x.id ≡ id
    → is_none (find_id id rows) ≡ false
found-is_some id [] x at same = absurd at
found-is_some id (y ∷ ys) x at same = elim (Bool-cases (y.id == id)) [
  | inl t ↦ rw t refl
  | inr n ↦ rw n (elim at [
    | inl e ↦
        let y_id : y.id ≡ id = ap (λ w. w.id) e ∙ same in absurd (ground (arith, eq_iff y.id id))
    | inr i ↦ found-is_some id ys x i same
  ])
]

some_returned :
    (now : ℕ) (id daemon : String) (rows : List Item) (x : Item)
    → In x rows
    → is_free id x ≡ true
    → (z : Item) × (rest : List Item) × (returned now id daemon rows ≡ taken now daemon z ∷ rest)
unfolding returned
some_returned now id daemon [] x at free = absurd at
some_returned now id daemon (y ∷ ys) x at free = elim (Bool-cases (is_free id y)) [
  | inl t ↦ (y, returned now id daemon ys, rw t refl)
  | inr n ↦ elim at [
    | inl e ↦
        let y_free : is_free id y ≡ true = subst (λ w. is_free id w ≡ true) (sym e) free in
        absurd (ground arith)
    | inr i ↦ let (z, rest, q) = some_returned now id daemon ys x i free in (z, rest, rw n q)
  ]
]

-- A claim with an id and a daemon is the conditional update and what it returns.
claim-named :
    (now : ℕ) (item daemon : String) (rows : List Item)
    → is_empty (trim item) ≡ false
    → is_empty (trim daemon) ≡ false
    → claim now item daemon rows ≡ (
      take now (trim item) (trim daemon) rows,
      claim_result
          (trim item)
          (take now (trim item) (trim daemon) rows)
          (returned now (trim item) (trim daemon) rows),
    )
unfolding claim
claim-named now item daemon rows i d = rw (i, d) refl

lost :
    (item daemon : String) (after won : List Item)
    → Owned item daemon after
    → won ≡ []
    → claim_result item after won ≡ conflict
lost item daemon after (w ∷ ws) h n = cc
lost item daemon after [] (owned there x at same mine) n =
    rw (found-is_some item after x at same) refl

won_first :
    (item : String) (after won : List Item) {y : Item} {rest : List Item}
    → won ≡ y ∷ rest
    → claim_result item after won ≡ of_item y
won_first item after [] h = cc
won_first item after (w ∷ ws) h = cc

conflict_again :
    (later : ℕ) (item other daemon : String) (rows : List Item)
    → is_empty (trim item) ≡ false
    → is_empty (trim other) ≡ false
    → Owned (trim item) daemon rows
    → (claim later item other rows).1 ≡ conflict
unfolding claim
conflict_again later item other daemon rows i o (owned there x at same mine) =
    let none_won : returned later (trim item) (trim other) rows ≡ [] =
      none_returned later (trim item) (trim other) rows mine in
    let still : Owned (trim item) daemon (take later (trim item) (trim other) rows) =
      taken-Owned (trim item) daemon later (trim item) (trim other) rows
        (owned rows x at same mine) in
    ap (λ r. r.1) (claim-named later item other rows i o)
    ∙ lost (trim item) daemon (take later (trim item) (trim other) rows)
        (returned later (trim item) (trim other) rows) still none_won

-- A claim of a free item of the queue, which is the only one of its id, wins; and whatever calls come
-- after it, in any order and with reads as old as they like, the item stays claimed by that daemon, and
-- every later claim of it, by any daemon, is answered with a conflict.
pub claim-Owned :
    (now later : ℕ) (item daemon other : String) (rows : List Item) (x : Item) (cs : List Call)
    → is_empty (trim item) ≡ false
    → is_empty (trim daemon) ≡ false
    → is_empty (trim other) ≡ false
    → In x rows
    → is_free (trim item) x ≡ true
    → ((y : Item) → In y rows → y.id ≡ trim item → y ≡ x)
    → ((z : Item) × ((claim now item daemon rows).1 ≡ of_item (taken now (trim daemon) z)))
      × Owned (trim item) (trim daemon) (after_calls cs (claim now item daemon rows).0)
      × ((claim later item other (after_calls cs (claim now item daemon rows).0)).1 ≡ conflict)
claim-Owned now later item daemon other rows x cs i d o at free only =
    let first : Owned (trim item) (trim daemon) (claim now item daemon rows).0 =
      subst (λ r. Owned (trim item) (trim daemon) r.0) (sym (claim-named now item daemon rows i d))
        (take-Owned now (trim item) (trim daemon) rows x at free only) in
    let (z, rest, q) = some_returned now (trim item) (trim daemon) rows x at free in
    let won : (claim now item daemon rows).1 ≡ of_item (taken now (trim daemon) z) =
      ap (λ r. r.1) (claim-named now item daemon rows i d)
      ∙ won_first (trim item) (take now (trim item) (trim daemon) rows)
          (returned now (trim item) (trim daemon) rows) q in
    let after = calls-Owned (trim item) (trim daemon) cs (claim now item daemon rows).0 first in
    (
      (z, won),
      after,
      conflict_again later item other (trim daemon) (after_calls cs (claim now item daemon rows).0)
          i o after,
    )
