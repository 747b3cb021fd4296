-- ===== src/Hugs/Over.antt =====
-- The end of several hugs: which rows stay open.
use text.Mathlib.Text.{◌==◌}
use mathlib.Core.Path.{subst}
use cliqhub_core.Prelude.{
  ℕ, String, Bool, true, false, ◌≡◌, refl, sym, ap, ◌∙◌, List, [], ◌∷◌, In, In-update_where_intro,
  In-update_where_elim, any_elim, some, any, any_intro, if◌then◌else◌, Bool-cases, inl, inr, arith,
  eq_iff, update_where,
}
use cliqhub_core.Hugs.{Hug, HugStore, done, find_hug, is_open}
use cliqhub_core.Hugs.Parts.{of_id, incremented, append_seq, write_event, deliver, notify}
use cliqhub_core.Hugs.Ended.{
  Ending, expiring, cancelling, EndTimes, end_hug, end_each, is_open_hug, mark_ended, ended_as,
  ended_status, tell_ended,
}
use cliqhub_core.Hugs.Told.{Told, append_seq-Appended}
use cliqhub_core.Hugs.Ending.{end_hug-cases}

-- No row of the id is open.
abbrev pub IsOver : String → List Hug → Type 0
IsOver id hugs = (h : Hug) → In h hugs → h.id ≡ id → is_open h.status ≡ false

-- Row by row: the same hug with the same expiry, open only where it was open.
abbrev pub Follows : List Hug → List Hug → Type 0
Follows [] [] = Unit
Follows [] (y ∷ ys) = ⊥
Follows (x ∷ xs) [] = ⊥
Follows (x ∷ xs) (y ∷ ys) =
    (y.id ≡ x.id)
    × (y.expires_at ≡ x.expires_at)
    × (is_open x.status ≡ false → is_open y.status ≡ false)
    × Follows xs ys

Follows-refl : (xs : List Hug) → Follows xs xs
Follows-refl [] = tt
Follows-refl (x ∷ xs) = (refl, refl, λ n. n, Follows-refl xs)

Follows-trans : (xs ys zs : List Hug) → Follows xs ys → Follows ys zs → Follows xs zs
Follows-trans [] [] zs h k = k
Follows-trans [] (y ∷ ys) zs h k = absurd h
Follows-trans (x ∷ xs) [] zs h k = absurd h
Follows-trans (x ∷ xs) (y ∷ ys) [] h k = absurd k
Follows-trans (x ∷ xs) (y ∷ ys) (z ∷ zs) (a, b, c, h) (d, e, f, k) =
    (d ∙ a, e ∙ b, λ n. f (c n), Follows-trans xs ys zs h k)

update_where-Follows :
    (p : Hug → Bool) (f : Hug → Hug) (xs : List Hug)
    → ((x : Hug)
        → ((f x).id ≡ x.id)
          × ((f x).expires_at ≡ x.expires_at)
          × (is_open x.status ≡ false → is_open (f x).status ≡ false))
    → Follows xs (update_where p f xs)
unfolding update_where
update_where-Follows p f [] keeps = tt
update_where-Follows p f (x ∷ xs) keeps = elim (Bool-cases (p x)) [
  | inl t ↦ let (a, b, c) = keeps x in rw t (a, b, c, update_where-Follows p f xs keeps)
  | inr n ↦ rw n (refl, refl, λ m. m, update_where-Follows p f xs keeps)
]

Follows-IsOver : (id : String) (xs ys : List Hug) → Follows xs ys → IsOver id xs → IsOver id ys
Follows-IsOver id [] [] h over g at same = absurd at
Follows-IsOver id [] (y ∷ ys) h over g at same = absurd h
Follows-IsOver id (x ∷ xs) [] h over g at same = absurd h
Follows-IsOver id (x ∷ xs) (y ∷ ys) (a, b, c, h) over g (inl q) same =
    subst (λ z. is_open z.status ≡ false) q
      (c (over x (inl refl) (sym a ∙ (ap (λ z. z.id) q ∙ same))))
Follows-IsOver id (x ∷ xs) (y ∷ ys) (a, b, c, h) over g (inr i) same =
    Follows-IsOver id xs ys h (λ z j. over z (inr j)) g i same

ended-not_open : (how : Ending) → is_open (ended_status how) ≡ false
ended-not_open expiring = refl
ended-not_open cancelling = refl

marked-Follows :
    (how : Ending) (now : ℕ) (id : String) (s : HugStore)
    → Follows s.hugs (mark_ended how now id s).hugs
marked-Follows how now id s =
    update_where-Follows (is_open_hug id) (ended_as how now) s.hugs
      (λ x. (refl, refl, λ _. ended-not_open how))

told-Follows : (h : Hug) (s t : HugStore) → Told h s t → Follows s.hugs t.hugs
told-Follows h s t w =
    subst (Follows s.hugs) (sym w.hugs_after)
      (update_where-Follows (of_id h.id) incremented s.hugs (λ x. (refl, refl, λ n. n)))

end_hug-Follows :
    (how : Ending) (at : EndTimes) (h : Hug) (s : HugStore)
    → Follows s.hugs (end_hug how at h s).hugs
end_hug-Follows how at h s = elim (end_hug-cases how at h s) [
  | inl same ↦ subst (λ t. Follows s.hugs t.hugs) (sym same) (Follows-refl s.hugs)
  | inr (_, w) ↦
      Follows-trans s.hugs (mark_ended how at.closed_at h.id s).hugs (end_hug how at h s).hugs
        (marked-Follows how at.closed_at h.id s)
        (told-Follows h (mark_ended how at.closed_at h.id s) (end_hug how at h s) w)
]

marked-IsOver :
    (how : Ending) (now : ℕ) (id : String) (s : HugStore) → IsOver id (mark_ended how now id s).hugs
marked-IsOver how now id s g at same =
    let (z, j, q) = In-update_where_elim (is_open_hug id) (ended_as how now) g s.hugs at in
    elim (Bool-cases (is_open_hug id z)) [
      | inl t ↦
          let g_is : g ≡ ended_as how now z = rw t at q in
          ap (λ w. is_open w.status) g_is ∙ ended-not_open how
      | inr n ↦
          let g_is : g ≡ z = rw n at q in
          let z_id : z.id ≡ id = sym (ap (λ w. w.id) g_is) ∙ same in
          ap (λ w. is_open w.status) g_is ∙ ground (arith, eq_iff z.id id)
    ]

-- The hug's row is there, so its counter is read.
found-In :
    (id : String) (xs : List Hug) (g : Hug)
    → In g xs
    → g.id ≡ id
    → (h : Hug) × (find_hug id xs ≡ some h)
found-In id [] g at same = absurd at
found-In id (x ∷ xs) g at same = elim (Bool-cases (x.id == id)) [
  | inl t ↦ (x, rw t refl)
  | inr n ↦ elim at [
    | inl q ↦ absurd (ground (arith, eq_iff x.id id, ap (λ z. z.id) q ∙ same))
    | inr i ↦ let (h, e) = found-In id xs g i same in (h, rw n e)
  ]
]

kept_id :
    (p : Hug → Bool) (f : Hug → Hug) (g : Hug)
    → (f g).id ≡ g.id
    → (if p g then f g else g).id ≡ g.id
kept_id p f g same = elim (Bool-cases (p g)) [ inl t ↦ rw t same | inr n ↦ rw n refl ]

append_seq_done :
    (id : String) (s : HugStore) (g : Hug)
    → In g s.hugs
    → g.id ≡ id
    → (t : HugStore) × (seq : ℕ) × (append_seq id s ≡ done (t, seq))
unfolding append_seq
append_seq_done id s g at same =
    let (x, e) =
      found-In id (update_where (of_id id) incremented s.hugs)
        (if of_id id g then incremented g else g)
        (In-update_where_intro (of_id id) incremented g s.hugs at)
        (kept_id (of_id id) incremented g refl ∙ same) in
    (record s { hugs = update_where (of_id id) incremented s.hugs }, x.last_seq, rw e refl)

-- The end of an open hug goes through.
end_hug_through :
    (how : Ending) (at : EndTimes) (h : Hug) (s t : HugStore) (seq : ℕ)
    → any (is_open_hug h.id) s.hugs ≡ true
    → append_seq h.id (mark_ended how at.closed_at h.id s) ≡ done (t, seq)
    → (end_hug how at h s).hugs ≡ t.hugs
unfolding end_hug tell_ended write_event deliver notify
end_hug_through expiring at h s t seq some_open e = rw some_open (rw e refl)
end_hug_through cancelling at h s t seq some_open e = rw some_open (rw e refl)

end_hug-IsOver :
    (how : Ending) (at : EndTimes) (h : Hug) (s : HugStore) → IsOver h.id (end_hug how at h s).hugs
end_hug-IsOver how at h s = elim (Bool-cases (any (is_open_hug h.id) s.hugs)) [
  | inr n ↦ λ g i same.
      let over : IsOver h.id s.hugs = (λ x j x_id. elim (Bool-cases (is_open x.status)) [
        | inr m ↦ m
        | inl o ↦
            let hit : is_open_hug h.id x ≡ true = ground (arith, eq_iff x.id h.id) in
            let found : any (is_open_hug h.id) s.hugs ≡ true =
              any_intro (is_open_hug h.id) x s.hugs j hit in
            absurd (ground arith)
      ]) in
      Follows-IsOver h.id s.hugs (end_hug how at h s).hugs (end_hug-Follows how at h s) over g i
        same
  | inl o ↦
      let (g, i, g_open) = any_elim (is_open_hug h.id) s.hugs o in
      let g_id : g.id ≡ h.id = ground (arith, eq_iff g.id h.id) in
      let (t, seq, e) =
        append_seq_done h.id (mark_ended how at.closed_at h.id s)
          (if is_open_hug h.id g then ended_as how at.closed_at g else g)
          (In-update_where_intro (is_open_hug h.id) (ended_as how at.closed_at) g s.hugs i)
          (kept_id (is_open_hug h.id) (ended_as how at.closed_at) g refl ∙ g_id) in
      let counted = append_seq-Appended h.id (mark_ended how at.closed_at h.id s) t seq e in
      let after : (end_hug how at h s).hugs
          ≡ update_where (of_id h.id) incremented (mark_ended how at.closed_at h.id s).hugs =
        end_hug_through how at h s t seq o e ∙ counted.hugs_after in
      subst (IsOver h.id) (sym after) (
        Follows-IsOver h.id (mark_ended how at.closed_at h.id s).hugs _
          (update_where-Follows (of_id h.id) incremented (mark_ended how at.closed_at h.id s).hugs
            (λ x. (refl, refl, λ n. n)))
          (marked-IsOver how at.closed_at h.id s))
]

pub end_each-Follows :
    (how : Ending) (met : Hug → EndTimes) (hs : List Hug) (s : HugStore)
    → Follows s.hugs (end_each how met hs s).hugs
unfolding end_each
end_each-Follows how met [] s = Follows-refl s.hugs
end_each-Follows how met (h ∷ hs) s =
    let first = end_hug how (met h) h s in
    Follows-trans s.hugs first.hugs (end_each how met hs first).hugs
      (end_hug-Follows how (met h) h s) (end_each-Follows how met hs first)

pub end_each-IsOver :
    (how : Ending) (met : Hug → EndTimes) (hs : List Hug) (s : HugStore) (h : Hug)
    → In h hs
    → IsOver h.id (end_each how met hs s).hugs
unfolding end_each
end_each-IsOver how met [] s h at = absurd at
end_each-IsOver how met (x ∷ hs) s h (inl q) =
    let first = end_hug how (met x) x s in
    subst (λ z. IsOver z.id (end_each how met hs first).hugs) q
      (Follows-IsOver x.id first.hugs (end_each how met hs first).hugs
        (end_each-Follows how met hs first) (end_hug-IsOver how (met x) x s))
end_each-IsOver how met (x ∷ hs) s h (inr i) =
    end_each-IsOver how met hs (end_hug how (met x) x s) h i
