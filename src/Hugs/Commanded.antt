-- ===== src/Hugs/Commanded.antt =====
-- Each event that a transaction writes, and the command that carries it to the daemon.
use mathlib.Core.Path.{subst}
use cliqhub_core.Prelude.{
  ℕ, true, ◌≡◌, sym, ap, ◌∙◌, List, [], ◌∷◌, In, In-append_elim, In-filter_iff, none, inl, inr, ◌⊎◌,
  print,
}
use cliqhub_core.Json.{str, num, obj, get_prop, get_field}
use cliqhub_core.Outbox.{Entry}
use cliqhub_core.Outbox.Delivery.{is_pending}
use cliqhub_core.Outbox.Enqueued.{command_outbox_enqueue-IsPending}
use cliqhub_core.Hugs.{Hug, HugEventRow, HugStore, HugContext}
use cliqhub_core.Hugs.Parts.{type_text, delivery_fields}
use cliqhub_core.Hugs.Ended.{mark_ended, end_hug, delete_old_events}
use cliqhub_core.Hugs.Opened.{store_hug}
use cliqhub_core.Hugs.Told.{Told}
use cliqhub_core.Hugs.Answered.{respond-Answered}
use cliqhub_core.Hugs.Ending.{end_hug-cases}
use cliqhub_core.Hugs.Steps.{
  HugStep, opening, responding, closing, ending, reminding, cleaning, close-Changed,
  remind_hug-Changed,
}

-- A command to deliver the event waits in the outbox.
abbrev pub Commanded : HugEventRow → List Entry → Type 0
Commanded e rows =
    (x : Entry) × In x rows
    × (x.endpoint ≡ "/v1/hugs/deliver")
    × (get_prop x.payload "hug_id" ≡ str e.hug_id)
    × (get_prop x.payload "seq" ≡ num (print e.seq))
    × (get_prop x.payload "type" ≡ str (type_text e.type_of))
    × (get_prop x.payload "payload" ≡ obj e.payload)
    × ((later : ℕ) → is_pending later x ≡ true)

told-Commanded :
    (h : Hug) (s t : HugStore)
    → Told h s t
    → (e : HugEventRow) → In e t.hug_events
    → In e s.hug_events ⊎ Commanded e t.queue.outbox
unfolding get_field
told-Commanded h s t w e at =
    elim (In-append_elim e s.hug_events (w.event ∷ []) (subst (In e) w.events_after at)) [
      | inl i ↦ inl i
      | inr (inr j) ↦ absurd j
      | inr (inl q) ↦
          let (x, i, _, _, endpoint, _, others, pending) =
            command_outbox_enqueue-IsPending w.tx_id w.at h.daemon_id "/v1/hugs/deliver"
              (delivery_fields h w.event.seq w.event.type_of w.event.payload) none _ s.queue
              (λ n. cc) in
          inr (
            subst (λ z. Commanded z t.queue.outbox) q
              (
                x,
                subst (λ z. In x z.outbox) (sym w.queue_after) i,
                endpoint,
                others "hug_id" (λ n. cc) ∙ sym (ap str w.event_of),
                others "seq" (λ n. cc),
                others "type" (λ n. cc),
                others "payload" (λ n. cc),
                λ later. (pending later).0,
              ))
    ]

-- Each transaction that writes an event leaves, in the same store, a pending command that carries the
-- event's hug, number, type and payload to a daemon.
pub step-Commanded :
    (ctx : HugContext) (s t : HugStore)
    → HugStep ctx s t
    → (e : HugEventRow) → In e t.hug_events
    → In e s.hug_events ⊎ Commanded e t.queue.outbox
unfolding store_hug delete_old_events
step-Commanded ctx s t (opening id now input s' fresh) e at = inl at
step-Commanded ctx s t (responding a seen input s' t' seq q) e at =
    let (w, _) = respond-Answered ctx a seen input s t seq q in
    told-Commanded w.hug s t w.transaction.told e at
step-Commanded ctx s t (closing seen now hug_id outcome daemon_id s' t' status q) e at =
    inl (subst (In e) (close-Changed seen now hug_id outcome daemon_id s t status q).same_events at)
step-Commanded ctx s t (ending how times h s') e at = elim (end_hug-cases how times h s) [
  | inl same ↦ inl (subst (λ z. In e z.hug_events) same at)
  | inr (_, w) ↦
      told-Commanded h (mark_ended how times.closed_at h.id s) (end_hug how times h s) w e at
]
step-Commanded ctx s t (reminding now h s') e at =
    inl (subst (In e) (remind_hug-Changed now h s).same_events at)
step-Commanded ctx s t (cleaning now s') e at = inl (((In-filter_iff _ e s.hug_events).0 at).0)
