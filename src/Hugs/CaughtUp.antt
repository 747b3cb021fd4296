-- ===== src/Hugs/CaughtUp.antt =====
-- What a daemon gets when it catches up.
use text.Mathlib.Text.{◌==◌}
use Prim.Native.Nat.{zero, suc, min}
use mathlib.Core.Path.{subst}
use cliqhub_core.Prelude.{
  ℕ, ◌<◌, ◌≤◌, String, Bool, true, false, ◌≡◌, ◌↔◌, refl, sym, ap, List, [], ◌∷◌, In, In-filter_iff,
  filter, any, any_intro, any_elim, length, ltb, ltb→lt, Bool-cases, inl, inr, ◌⊎◌, arith, eq_iff,
}
use cliqhub_core.Hugs.{Hug, HugEventRow, HugStore}
use cliqhub_core.Hugs.CatchUp.{
  Cursor, after_of, is_asked, is_own, is_missed, comes_before, insert_event, in_order, limit_events,
  get_events,
}

In-limit_events :
    (n : ℕ) (es : List HugEventRow) (e : HugEventRow) → In e (limit_events n es) → In e es
In-limit_events zero es e at = absurd at
In-limit_events (suc n) [] e at = at
In-limit_events (suc n) (x ∷ xs) e (inl q) = inl q
In-limit_events (suc n) (x ∷ xs) e (inr i) = inr (In-limit_events n xs e i)

length-limit_events :
    (n : ℕ) (es : List HugEventRow) → length (limit_events n es) ≡ min n (length es)
length-limit_events zero es = omega arith
length-limit_events (suc n) [] = omega arith
length-limit_events (suc n) (x ∷ xs) = omega (arith, length-limit_events n xs)

limit_events_all : (n : ℕ) (es : List HugEventRow) → length es ≤ n → limit_events n es ≡ es
limit_events_all zero [] h = refl
limit_events_all zero (x ∷ xs) h = absurd (omega arith)
limit_events_all (suc n) [] h = refl
limit_events_all (suc n) (x ∷ xs) h = ap (λ ys. x ∷ ys) (limit_events_all n xs (omega arith))

module _ (less : String → String → Bool) (e : HugEventRow) where
  In-insert_event :
      (x : HugEventRow) (xs : List HugEventRow)
      → In e (insert_event less x xs) ↔ ((x ≡ e) ⊎ In e xs)
  unfolding insert_event
  In-insert_event x [] = (λ h. h, λ h. h)
  In-insert_event x (y ∷ ys) =
      let (out, into) = In-insert_event x ys in
      elim (Bool-cases (comes_before less x y)) [
        | inl t ↦ rw t (λ h. h, λ h. h)
        | inr n ↦ rw n (
          λ h. elim h [
            | inl q ↦ inr (inl q)
            | inr i ↦ elim (out i) [ inl p ↦ inl p | inr j ↦ inr (inr j) ]
          ],
          λ h. elim h [
            | inl p ↦ inr (into (inl p))
            | inr (inl q) ↦ inl q
            | inr (inr j) ↦ inr (into (inr j))
          ],
        )
      ]

  In-in_order : (es : List HugEventRow) → In e (in_order less es) ↔ In e es
  unfolding in_order
  In-in_order [] = (λ h. h, λ h. h)
  In-in_order (x ∷ xs) =
      let (out, into) = In-in_order xs in
      let (took, put) = In-insert_event x (in_order less xs) in
      (
        λ h. elim (took h) [ inl q ↦ inl q | inr i ↦ inr (out i) ],
        λ h. elim h [ inl q ↦ put (inl q) | inr i ↦ put (inr (into i)) ],
      )

-- The daemon asked for the hug, which is its own, and the event comes after its cursor.
abbrev pub Missed : String → List Cursor → HugStore → HugEventRow → Type 0
Missed daemon_id cs s e =
    In e s.hug_events
    × ((h : Hug) × In h s.hugs × (h.id ≡ e.hug_id) × (h.daemon_id ≡ daemon_id))
    × (is_asked cs e.hug_id ≡ true)
    × (after_of cs e.hug_id < e.seq)

module _ (daemon_id : String) (cs : List Cursor) (s : HugStore) (e : HugEventRow) where
  is_missed-Missed :
      In e (filter (is_missed cs (filter (is_own daemon_id cs) s.hugs)) s.hug_events)
      → Missed daemon_id cs s e
  is_missed-Missed at =
      let (i, test) =
        (In-filter_iff (is_missed cs (filter (is_own daemon_id cs) s.hugs)) e s.hug_events).0 at in
      let (h, j, same) =
        any_elim (λ h. h.id == e.hug_id) (filter (is_own daemon_id cs) s.hugs) (ground arith) in
      let (k, own) = (In-filter_iff (is_own daemon_id cs) h s.hugs).0 j in
      let h_id : h.id ≡ e.hug_id = (eq_iff h.id e.hug_id).0 same in
      let asked : is_asked cs h.id ≡ true = ground arith in
      (
        i,
        (h, k, h_id, ground (arith, eq_iff h.daemon_id daemon_id)),
        subst (λ z. is_asked cs z ≡ true) h_id asked,
        ground arith,
      )

  Missed-is_missed :
      Missed daemon_id cs s e
      → In e (filter (is_missed cs (filter (is_own daemon_id cs) s.hugs)) s.hug_events)
  Missed-is_missed (i, (h, k, h_id, own), asked, after) =
      let asked_h : is_asked cs h.id ≡ true = subst (λ z. is_asked cs z ≡ true) (sym h_id) asked in
      let h_own : is_own daemon_id cs h ≡ true = ground (arith, eq_iff h.daemon_id daemon_id) in
      let found : any (λ g. g.id == e.hug_id) (filter (is_own daemon_id cs) s.hugs) ≡ true =
        any_intro (λ g. g.id == e.hug_id) h (filter (is_own daemon_id cs) s.hugs)
          ((In-filter_iff (is_own daemon_id cs) h s.hugs).1 (k, h_own))
          ((eq_iff h.id e.hug_id).1 h_id) in
      (In-filter_iff (is_missed cs (filter (is_own daemon_id cs) s.hugs)) e s.hug_events).1
        (i, ground arith)

at_most : (n : ℕ) → ltb 500 n ≡ false → n ≤ 500
at_most n h = ground arith

-- A daemon that catches up gets exactly the events of its own hugs, of those it asks for, after their
-- cursors; or it is told that there are more, and gets 500 events that are all of this kind.
pub get_events_complete :
    (less : String → String → Bool) (daemon_id : String) (cs : List Cursor) (s : HugStore)
    (e : HugEventRow)
    → (((get_events less daemon_id cs s).has_more ≡ false)
        × (In e (get_events less daemon_id cs s).events ↔ Missed daemon_id cs s e))
      ⊎ (((get_events less daemon_id cs s).has_more ≡ true)
          × (length (get_events less daemon_id cs s).events ≡ 500)
          × (In e (get_events less daemon_id cs s).events → Missed daemon_id cs s e))
unfolding get_events
get_events_complete less daemon_id cs s e = elim (Bool-cases (ltb 500 (length rows))) [
  | inl more ↦
      let many = ltb→lt 500 (length rows) more in
      let count = length-limit_events 500 rows in inr (more, omega arith, out)
  | inr last ↦
      let few : length rows ≤ 500 = at_most (length rows) last in
      let count = length-limit_events 501 sorted in
      let same : rows ≡ sorted = limit_events_all 501 sorted (omega arith) in
      inl (
        last,
        (
          out,
          λ missed. subst (In e) (sym (limit_events_all 500 rows few)) (
              subst (In e) (sym same)
                ((In-in_order less e kept).1 (Missed-is_missed daemon_id cs s e missed))),
        ),
      )
]
  where
    kept : List HugEventRow
    kept = filter (is_missed cs (filter (is_own daemon_id cs) s.hugs)) s.hug_events

    sorted : List HugEventRow
    sorted = in_order less kept

    rows : List HugEventRow
    rows = limit_events 501 sorted

    out : In e (limit_events 500 rows) → Missed daemon_id cs s e
    out at =
        is_missed-Missed daemon_id cs s e (
          (In-in_order less e kept).0
            (In-limit_events 501 sorted e (In-limit_events 500 rows e at)))
