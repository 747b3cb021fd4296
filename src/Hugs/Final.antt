-- ===== src/Hugs/Final.antt =====
-- No transaction reopens a hug that has ended, changes how it ended, or tells its requester more.
use text.Mathlib.Text.{◌==◌}
use mathlib.Core.Path.{subst}
use cliqhub_core.Prelude.{
  ℕ, String, true, false, ◌≡◌, ◌≢◌, refl, sym, ap, ◌∙◌, [], ◌∷◌, ◌++◌, In, In-append_left,
  In-append_elim, In-filter_iff, Option, any_elim, inl, inr, arith, eq_iff,
}
use cliqhub_core.Hugs.{Hug, HugStatus, HugEventRow, HugStore, HugContext, is_open}
use cliqhub_core.Hugs.Parts.{of_id, incremented}
use cliqhub_core.Hugs.Ended.{
  end_hug, remind_hug, rescheduled, delete_old_events, mark_ended, ended_as, is_open_hug,
  closed_with,
}
use cliqhub_core.Hugs.Opened.{store_hug, new_hug}
use cliqhub_core.Hugs.Told.{Told}
use cliqhub_core.Hugs.Answered.{respond-Answered}
use cliqhub_core.Hugs.Ending.{end_hug-cases}
use cliqhub_core.Hugs.Settled.{
  Settled, settled, find_hug-In, find_hug-none, answerable-is_open, settled-over, Changed-Settled,
  IsSettled, Keeps,
}
use cliqhub_core.Hugs.Steps.{
  HugStep, opening, responding, closing, ending, reminding, cleaning, HugSteps, stop, next,
  close-Changed, remind_hug-Changed,
}

open_row :
    (id : String) (h : Hug) → is_open_hug id h ≡ true → (h.id ≡ id) × (is_open h.status ≡ true)
open_row id h e = (ground (arith, eq_iff h.id id), ground arith)

module _ (id : String) (status : HugStatus) (outcome : Option String) (closed_at : Option ℕ)
    (is_over : is_open status ≡ false) where
  -- The requester is told nothing new of the hug.
  abbrev pub NothingNew : HugStore → HugStore → Type 0
  NothingNew s t = (e : HugEventRow) → In e t.hug_events → e.hug_id ≡ id → In e s.hug_events

  told_other : (h : Hug) (s t : HugStore) → h.id ≢ id → Told h s t → NothingNew s t
  told_other h s t other w e at e_id =
      elim (In-append_elim e s.hug_events (w.event ∷ []) (subst (In e) w.events_after at)) [
        | inl i ↦ i
        | inr (inl q) ↦ absurd (other (sym w.event_of ∙ (ap (λ z. z.hug_id) q ∙ e_id)))
        | inr (inr j) ↦ absurd j
      ]

  told_kept :
      (h : Hug) (s t : HugStore)
      → Told h s t
      → IsSettled id status outcome closed_at is_over s.hugs
      → IsSettled id status outcome closed_at is_over t.hugs
  told_kept h s t w =
      Changed-Settled id status outcome closed_at is_over (of_id h.id) incremented s t
        (λ x _. (refl, λ _. (refl, refl, refl))) w.hugs_after

  -- A change of open rows only.
  open_only :
      (key : String) (f : Hug → Hug)
      → ((h : Hug) → (f h).id ≡ h.id)
      → Keeps id status outcome closed_at is_over (is_open_hug key) f
  open_only key f same x e = (same x, λ over. absurd (ground (arith, open_row key x e)))

  step-Settled :
      (ctx : HugContext) (s t : HugStore)
      → HugStep ctx s t
      → Settled id status outcome closed_at s.hugs
      → Settled id status outcome closed_at t.hugs × NothingNew s t
  unfolding store_hug new_hug delete_old_events
  step-Settled ctx s t (opening key now input s' fresh) (settled hugs h at same all) = (
    settled (s.hugs ++ (new_hug key now input ∷ [])) h (In-append_left h s.hugs _ at) same
        λ g i g_id. elim (In-append_elim g s.hugs (new_hug key now input ∷ []) i) [
          | inl j ↦ all g j g_id
          | inr (inl q) ↦
              let key_id : key ≡ id = ap (λ z. z.id) q ∙ g_id in
              absurd (find_hug-none key s.hugs h fresh at (same ∙ sym key_id))
          | inr (inr j) ↦ absurd j
        ],
    λ e i _. i,
  )
  step-Settled ctx s t (responding a seen input s' t' seq e) over =
      let (w, _) = respond-Answered ctx a seen input s t seq e in
      let tr = w.transaction in
      let (at, locked_id) = find_hug-In w.hug.id s.hugs tr.locked tr.is_held in
      (
        told_kept w.hug s t tr.told over,
        told_other w.hug s t
            (λ same.
              settled-over id status outcome closed_at is_over s.hugs tr.locked over at
                (locked_id ∙ same) (answerable-is_open tr.locked a.locked_at tr.is_answerable))
            tr.told,
      )
  step-Settled ctx s t (closing seen now hug_id result daemon_id s' t' st e) over =
      let c = close-Changed seen now hug_id result daemon_id s t st e in
      (
        Changed-Settled id status outcome closed_at is_over (is_open_hug hug_id)
            (closed_with result now) s t (open_only hug_id (closed_with result now) (λ h. refl))
            c.hugs_after over,
        λ x at _. subst (In x) c.same_events at,
      )
  step-Settled ctx s t (ending how at h s') over = elim (end_hug-cases how at h s) [
    | inl same ↦ (
      subst (λ z. Settled id status outcome closed_at z.hugs) (sym same) over,
      λ e i _. subst (λ z. In e z.hug_events) same i,
    )
    | inr (some_open, w) ↦
        let (g, i, g_open) = any_elim (is_open_hug h.id) s.hugs some_open in
        let (g_id, opened) = open_row h.id g g_open in
        (
          told_kept h (mark_ended how at.closed_at h.id s) (end_hug how at h s) w (
              Changed-Settled id status outcome closed_at is_over (is_open_hug h.id)
                (ended_as how at.closed_at) s (mark_ended how at.closed_at h.id s)
                (open_only h.id (ended_as how at.closed_at) (λ x. refl)) refl over),
          told_other h (mark_ended how at.closed_at h.id s) (end_hug how at h s)
              (λ same.
                settled-over id status outcome closed_at is_over s.hugs g over i (g_id ∙ same)
                  opened)
              w,
        )
  ]
  step-Settled ctx s t (reminding now h s') over =
      let c = remind_hug-Changed now h s in
      (
        Changed-Settled id status outcome closed_at is_over (λ row. row.id == h.id)
            (rescheduled now h) s (remind_hug now h s) (λ x _. (refl, λ _. (refl, refl, refl)))
            c.hugs_after over,
        λ e at _. subst (In e) c.same_events at,
      )
  step-Settled ctx s t (cleaning now s') over =
      (over, λ e at _. ((In-filter_iff _ e s.hug_events).0 at).0)

  -- Once a hug has ended, whatever transactions run on the hugs, answers that were checked before it
  -- ended among them, it keeps the status, the outcome and the time with which it ended, and no event
  -- is written for it.
  pub steps-Settled :
      (ctx : HugContext) (s t : HugStore)
      → HugSteps ctx s t
      → Settled id status outcome closed_at s.hugs
      → Settled id status outcome closed_at t.hugs
        × ((e : HugEventRow) → In e t.hug_events → e.hug_id ≡ id → In e s.hug_events)
  steps-Settled ctx s t (stop s') over = (over, λ e at _. at)
  steps-Settled ctx s t (next s' u t' step steps) over =
      let (after, old) = step-Settled ctx s u step over in
      let (last, older) = steps-Settled ctx u t steps after in
      (last, λ e at e_id. old e (older e at e_id) e_id)
