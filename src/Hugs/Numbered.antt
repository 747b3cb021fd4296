-- ===== src/Hugs/Numbered.antt =====
-- The numbers of a hug's events, across all steps.
use text.Mathlib.Text.{◌==◌}
use Prim.Native.Nat.{suc}
use mathlib.Core.Path.{subst}
use cliqhub_core.Prelude.{
  ◌<◌, ◌≤◌, String, Bool, false, ◌≡◌, refl, sym, ap, ◌∙◌, List, [], ◌∷◌, ◌++◌, In, In-append_elim,
  In-filter_iff, filter, Bool-cases, inl, inr, arith, eq_iff, update_where, is_none,
}
use cliqhub_core.Hugs.{Hug, HugEventRow, HugStore, HugContext, find_hug}
use cliqhub_core.Hugs.Parts.{of_id, incremented}
use cliqhub_core.Hugs.Ended.{
  rescheduled, end_hug, remind_hug, delete_old_events, mark_ended, ended_as, is_open_hug,
  closed_with,
}
use cliqhub_core.Hugs.Opened.{store_hug, new_hug}
use cliqhub_core.Hugs.Told.{Told, numbered_to, numbered_to-incremented}
use cliqhub_core.Hugs.Answered.{respond-Answered}
use cliqhub_core.Hugs.Ending.{end_hug-cases}
use cliqhub_core.Hugs.Steps.{
  HugStep, opening, responding, closing, ending, reminding, cleaning, HugSteps, stop, next, Changed,
  close-Changed, remind_hug-Changed,
}

-- The events of one hug stand in the order of their numbers, which are all different.
abbrev pub Increasing : List HugEventRow → Type 0
Increasing [] = Unit
Increasing (e ∷ es) =
    ((f : HugEventRow) → In f es → f.hug_id ≡ e.hug_id → e.seq < f.seq) × Increasing es

-- Each event has a number from 1 to its hug's counter.
abbrev pub IsWithin : List Hug → List HugEventRow → Type 0
IsWithin hugs es = (e : HugEventRow) → In e es → (0 < e.seq) × (e.seq ≤ numbered_to e.hug_id hugs)

pub record IsNumbered (s : HugStore) : Type 0 where
  pub within : IsWithin s.hugs s.hug_events
  pub increasing : Increasing s.hug_events

numbered_to-kept :
    (p : Hug → Bool) (f : Hug → Hug) (id : String) (hugs : List Hug)
    → ((h : Hug) → ((f h).id ≡ h.id) × ((f h).last_seq ≡ h.last_seq))
    → numbered_to id (update_where p f hugs) ≡ numbered_to id hugs
unfolding update_where
numbered_to-kept p f id [] keeps = refl
numbered_to-kept p f id (x ∷ xs) keeps =
    let rest = numbered_to-kept p f id xs keeps in
    elim (Bool-cases (p x)) [
      | inl t ↦ rw t (
          rw ((keeps x).0)
            (elim (Bool-cases (x.id == id)) [ inl u ↦ rw u ((keeps x).1) | inr n ↦ rw n rest ]))
      | inr m ↦ rw m (elim (Bool-cases (x.id == id)) [ inl u ↦ rw u refl | inr n ↦ rw n rest ])
    ]

numbered_to-counted :
    (id : String) (hugs : List Hug)
    → is_none (find_hug id hugs) ≡ false
    → numbered_to id (update_where (of_id id) incremented hugs) ≡ suc (numbered_to id hugs)
unfolding update_where
numbered_to-counted id [] there = cc
numbered_to-counted id (x ∷ xs) there = elim (Bool-cases (x.id == id)) [
  | inl t ↦ rw t (rw t (omega arith))
  | inr n ↦ rw n (rw n (numbered_to-counted id xs (rw n at there)))
]

-- A new hug starts at 0, so whether its id is new is no matter here.
numbered_to-append :
    (id : String) (hugs : List Hug) (h : Hug)
    → h.last_seq ≡ 0
    → numbered_to id (hugs ++ (h ∷ [])) ≡ numbered_to id hugs
numbered_to-append id [] h zero = elim (Bool-cases (h.id == id)) [
  | inl t ↦ rw t zero
  | inr n ↦ rw n refl
]
numbered_to-append id (x ∷ xs) h zero = elim (Bool-cases (x.id == id)) [
  | inl t ↦ rw t refl
  | inr n ↦ rw n (numbered_to-append id xs h zero)
]

Increasing-append :
    (es : List HugEventRow) (e : HugEventRow)
    → Increasing es
    → ((f : HugEventRow) → In f es → f.hug_id ≡ e.hug_id → f.seq < e.seq)
    → Increasing (es ++ (e ∷ []))
Increasing-append [] e h above = (λ f at. absurd at, tt)
Increasing-append (x ∷ xs) e (first, rest) above = (
  λ f at same. elim (In-append_elim f xs (e ∷ []) at) [
    | inl i ↦ first f i same
    | inr (inl q) ↦
        subst (λ z. x.seq < z.seq) q (above x (inl refl) (sym same ∙ sym (ap (λ z. z.hug_id) q)))
    | inr (inr j) ↦ absurd j
  ],
  Increasing-append xs e rest (λ f at. above f (inr at)),
)

Increasing-filter :
    (p : HugEventRow → Bool) (es : List HugEventRow) → Increasing es → Increasing (filter p es)
Increasing-filter p [] h = tt
Increasing-filter p (x ∷ xs) (first, rest) = elim (Bool-cases (p x)) [
  | inl t ↦ rw t (λ f at. first f (((In-filter_iff p f xs).0 at).0), Increasing-filter p xs rest)
  | inr n ↦ rw n (Increasing-filter p xs rest)
]

numbered_to-told :
    (h : Hug) (hugs : List Hug) (id : String)
    → is_none (find_hug h.id hugs) ≡ false
    → numbered_to id hugs ≤ numbered_to id (update_where (of_id h.id) incremented hugs)
numbered_to-told h hugs id there = elim (Bool-cases (h.id == id)) [
  | inl t ↦
      let same : h.id ≡ id = (eq_iff h.id id).0 t in
      subst (λ z. numbered_to z hugs ≤ numbered_to z (update_where (of_id h.id) incremented hugs))
        same (omega (arith, numbered_to-counted h.id hugs there))
  | inr n ↦ omega (arith, numbered_to-incremented h.id id hugs n)
]

Told-IsNumbered : (h : Hug) (s t : HugStore) → Told h s t → IsNumbered s → IsNumbered t
Told-IsNumbered h s t w before = record {
  within = λ e at.
      subst (λ hs. (0 < e.seq) × (e.seq ≤ numbered_to e.hug_id hs)) (sym w.hugs_after)
        (elim (In-append_elim e s.hug_events (w.event ∷ []) (subst (In e) w.events_after at)) [
          | inl i ↦
              let (positive, bound) = before.within e i in
              let grows = numbered_to-told h s.hugs e.hug_id w.is_there in (positive, omega arith)
          | inr (inl q) ↦
              subst
                (λ z.
                  (0 < z.seq)
                  × (z.seq ≤ numbered_to z.hug_id (update_where (of_id h.id) incremented s.hugs)))
                q
                (subst
                  (λ id.
                    (0 < w.event.seq)
                    × (w.event.seq ≤ numbered_to id (update_where (of_id h.id) incremented s.hugs)))
                  (sym w.event_of)
                  (
                    omega (arith, w.number),
                    omega (arith, w.number, numbered_to-counted h.id s.hugs w.is_there),
                  ))
          | inr (inr j) ↦ absurd j
        ]);
  increasing = subst Increasing (sym w.events_after) (
      Increasing-append s.hug_events w.event before.increasing λ f at same.
        let of_hug : f.hug_id ≡ h.id = same ∙ w.event_of in
        let bound : f.seq ≤ numbered_to h.id s.hugs =
          subst (λ id. f.seq ≤ numbered_to id s.hugs) of_hug ((before.within f at).1) in
        omega (arith, w.number));
}

-- A change of the hugs that keeps each id and counter.
Changed-IsNumbered :
    (p : Hug → Bool) (f : Hug → Hug) (s t : HugStore)
    → ((h : Hug) → ((f h).id ≡ h.id) × ((f h).last_seq ≡ h.last_seq))
    → Changed p f s t
    → IsNumbered s
    → IsNumbered t
Changed-IsNumbered p f s t keeps c before = record {
  within = λ e at.
      let (positive, bound) = before.within e (subst (In e) c.same_events at) in
      let kept = numbered_to-kept p f e.hug_id s.hugs keeps in
      subst (λ hs. (0 < e.seq) × (e.seq ≤ numbered_to e.hug_id hs)) (sym c.hugs_after)
        (positive, omega arith);
  increasing = subst Increasing (sym c.same_events) before.increasing;
}

step-IsNumbered :
    (ctx : HugContext) (s t : HugStore) → HugStep ctx s t → IsNumbered s → IsNumbered t
unfolding store_hug new_hug delete_old_events
step-IsNumbered ctx s t (opening id now input s' fresh) before = record {
  within = λ e at.
      let (positive, bound) = before.within e at in
      (positive, omega (arith, numbered_to-append e.hug_id s.hugs (new_hug id now input) refl));
  increasing = before.increasing;
}
step-IsNumbered ctx s t (responding a seen input s' t' seq e) before =
    let (w, _) = respond-Answered ctx a seen input s t seq e in
    Told-IsNumbered w.hug s t w.transaction.told before
step-IsNumbered ctx s t (closing seen now hug_id outcome daemon_id s' t' status e) before =
    Changed-IsNumbered (is_open_hug hug_id) (closed_with outcome now) s t (λ h. (refl, refl))
      (close-Changed seen now hug_id outcome daemon_id s t status e) before
step-IsNumbered ctx s t (ending how at h s') before = elim (end_hug-cases how at h s) [
  | inl same ↦ subst IsNumbered (sym same) before
  | inr (_, w) ↦ Told-IsNumbered h (mark_ended how at.closed_at h.id s) (end_hug how at h s) w (
      Changed-IsNumbered (is_open_hug h.id) (ended_as how at.closed_at) s
        (mark_ended how at.closed_at h.id s) (λ h. (refl, refl))
        (record { hugs_after = refl; same_events = refl; same_queue = refl }) before)
]
step-IsNumbered ctx s t (reminding now h s') before =
    Changed-IsNumbered (λ row. row.id == h.id) (rescheduled now h) s (remind_hug now h s)
      (λ x. (refl, refl)) (remind_hug-Changed now h s) before
step-IsNumbered ctx s t (cleaning now s') before = record {
  within = λ e at. before.within e (((In-filter_iff _ e s.hug_events).0 at).0);
  increasing = Increasing-filter _ s.hug_events before.increasing;
}

-- Whatever transactions run on the hugs, and however old the store is that each of them checked before
-- it began: where each hug's events had different numbers, in the order in which they were written,
-- none of them above the hug's counter, they still have.
pub steps-IsNumbered :
    (ctx : HugContext) (s t : HugStore) → HugSteps ctx s t → IsNumbered s → IsNumbered t
steps-IsNumbered ctx s t (stop s') before = before
steps-IsNumbered ctx s t (next s' u t' step steps) before =
    steps-IsNumbered ctx u t steps (step-IsNumbered ctx s u step before)
