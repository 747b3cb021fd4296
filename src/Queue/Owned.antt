-- ===== src/Queue/Owned.antt =====
-- The calls on the queue as steps, and what each of them keeps of an item that a daemon has claimed.
use cliqhub_core.Prelude.{
  if_cases, ℕ, String, Bool, true, false, ◌≡◌, refl, sym, ap, ◌∙◌, List, [], ◌∷◌, ◌++◌, In, some,
  any, any_intro, if◌then◌else◌, Bool-cases, inl, inr, arith, eq_iff, update_where,
  In-update_where_intro, In-update_where_elim, In-append_left, In-append_elim, is_empty, trim, ◌||◌,
}
use cliqhub_core.Queue.{
  Item, NewItem, Outcome, QueueResult, of_item, create, new_item, claim, take, returned, is_free,
  taken, claim_result, is_item, save_offered, save_results, offered_item, item_with, conflict,
  bad_request,
}

-- What any client may do: each constructor is one statement on the table.
pub data Call : Type 0 where
  creating : (id : String) (now : ℕ) → NewItem → Call
  claiming : (now : ℕ) (id daemon : String) → Call
  saving_offered : (now : ℕ) (seen : Item) → Call
  saving_results : (now : ℕ) (seen : Item) → Outcome → Call

unfoldable pub after_call : Call → List Item → List Item
unfolding create claim save_offered save_results
after_call (creating id now input) rows = (create id now input rows).0
after_call (claiming now id daemon) rows = (claim now id daemon rows).0
after_call (saving_offered now seen) rows = save_offered now seen rows
after_call (saving_results now seen input) rows = save_results now seen input rows

unfoldable pub after_calls : List Call → List Item → List Item
unfolding after_call
after_calls [] rows = rows
after_calls (c ∷ cs) rows = after_calls cs (after_call c rows)

-- The item is in the table, and each row of that id is claimed by the daemon.
pub data Owned (id daemon : String) : List Item → Type 0 where
  owned :
      (rows : List Item) (x : Item)
      → In x rows
      → x.id ≡ id
      → ((y : Item) → In y rows → y.id ≡ id → y.claimed_by ≡ some daemon)
      → Owned id daemon rows

-- A change that keeps ids and the claims of the daemon.
abbrev Keeps : String → (Item → Bool) → (Item → Item) → Type 0
Keeps daemon p f =
    (x : Item)
    → p x ≡ true
    → ((f x).id ≡ x.id) × (x.claimed_by ≡ some daemon → (f x).claimed_by ≡ some daemon)

module _ (id daemon : String) (p : Item → Bool) (f : Item → Item) (keeps : Keeps daemon p f) where
  changed-id : (x : Item) → (if p x then f x else x).id ≡ x.id
  changed-id x = elim (Bool-cases (p x)) [ inl t ↦ rw t ((keeps x t).0) | inr n ↦ rw n refl ]

  changed-claim :
      (x : Item) → x.claimed_by ≡ some daemon → (if p x then f x else x).claimed_by ≡ some daemon
  changed-claim x h = elim (Bool-cases (p x)) [ inl t ↦ rw t ((keeps x t).1 h) | inr n ↦ rw n h ]

  update_where-Owned :
      (rows : List Item) → Owned id daemon rows → Owned id daemon (update_where p f rows)
  update_where-Owned rows (owned there x at same mine) =
      owned (update_where p f rows) (if p x then f x else x) (In-update_where_intro p f x rows at)
        (changed-id x ∙ same)
        λ y i k.
          let (z, j, q) = In-update_where_elim p f y rows i in
          let z_id : z.id ≡ id = sym (changed-id z) ∙ (sym (ap (λ w. w.id) q) ∙ k) in
          ap (λ w. w.claimed_by) q ∙ changed-claim z (mine z j z_id)

append-Owned :
    (id daemon : String) (new : Item) (rows : List Item)
    → any (is_item new.id) rows ≡ false
    → Owned id daemon rows
    → Owned id daemon (rows ++ new ∷ [])
append-Owned id daemon new rows fresh (owned there x at same mine) =
    owned (rows ++ new ∷ []) x (In-append_left x rows (new ∷ []) at) same λ y i k.
      elim (In-append_elim y rows (new ∷ []) i) [
        | inl j ↦ mine y j k
        | inr (inl e) ↦
            let new_id : new.id ≡ id = ap (λ w. w.id) e ∙ k in
            let hit : is_item new.id x ≡ true = ground (arith, eq_iff x.id new.id) in
            let found : any (is_item new.id) rows ≡ true =
              any_intro (is_item new.id) x rows at hit in
            absurd (ground arith)
        | inr (inr j) ↦ absurd j
      ]

pub claimed-not_free :
    (id : String) (x : Item) {daemon : String}
    → x.claimed_by ≡ some daemon
    → is_free id x ≡ true
    → ⊥
claimed-not_free id x mine free = ground arith

pub taken-Owned :
    (id daemon : String) (now : ℕ) (item other : String) (rows : List Item)
    → Owned id daemon rows
    → Owned id daemon (take now item other rows)
unfolding take
taken-Owned id daemon now item other rows h =
    update_where-Owned id daemon (is_free item) (taken now other)
      (λ x free. (refl, λ mine. absurd (claimed-not_free item x mine free))) rows h

call-Owned :
    (id daemon : String) (c : Call) (rows : List Item)
    → Owned id daemon rows
    → Owned id daemon (after_call c rows)
unfolding after_call create claim take save_offered save_results
call-Owned id daemon (creating new now input) rows h =
    if_cases OwnedAfter (is_empty (trim input.realm_id) || is_empty (trim input.submitted_by))
      (rows, bad_request)
      (if any (is_item new) rows
        then (rows, conflict)
        else (rows ++ new_item new now input ∷ [], of_item (new_item new now input)))
      (λ t. h)
      λ n.
        if_cases OwnedAfter (any (is_item new) rows) (rows, conflict)
          (rows ++ new_item new now input ∷ [], of_item (new_item new now input)) (λ t. h)
          (λ fresh. append-Owned id daemon (new_item new now input) rows fresh h)
  where
    OwnedAfter : List Item × QueueResult → Type 0
    OwnedAfter r = Owned id daemon r.0
call-Owned id daemon (claiming now item other) rows h =
    if_cases OwnedAfter (is_empty (trim item) || is_empty (trim other)) (rows, bad_request)
      (
        take now (trim item) (trim other) rows,
        claim_result (trim item) (take now (trim item) (trim other) rows)
            (returned now (trim item) (trim other) rows),
      )
      (λ t. h) λ n. taken-Owned id daemon now (trim item) (trim other) rows h
  where
    OwnedAfter : List Item × QueueResult → Type 0
    OwnedAfter r = Owned id daemon r.0
call-Owned id daemon (saving_offered now seen) rows h =
    update_where-Owned id daemon (is_item seen.id) (offered_item now seen)
      (λ x at. (refl, λ mine. mine)) rows h
call-Owned id daemon (saving_results now seen input) rows h =
    update_where-Owned id daemon (is_item seen.id) (item_with now seen input)
      (λ x at. (refl, λ mine. mine)) rows h

pub calls-Owned :
    (id daemon : String) (cs : List Call) (rows : List Item)
    → Owned id daemon rows
    → Owned id daemon (after_calls cs rows)
unfolding after_calls
calls-Owned id daemon [] rows h = h
calls-Owned id daemon (c ∷ cs) rows h =
    calls-Owned id daemon cs (after_call c rows) (call-Owned id daemon c rows h)
