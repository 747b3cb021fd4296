-- ===== src/Hugs/Accepted.antt =====
-- What an accepted answer rests on.
use Prim.Native.Nat.{suc}
use mathlib.Core.Path.{subst}
use cliqhub_core.Prelude.{
  if_cases, ℕ, ◌<◌, String, true, not, ◌≡◌, ◌≢◌, refl, sym, ap, ◌∙◌, List, [], ◌∷◌, ◌++◌, In,
  In-filter_iff, Option, none, some, map, filter, if◌then◌else◌, Bool-cases, inl, inr, ◌⊎◌, arith,
  eq_iff, distinct, leb,
}
use cliqhub_core.Json.{Fields}
use cliqhub_core.Hugs.{
  Hug, HugEventRow, HugStatus, open_hug, closed, expired, cancelled, HugError, HugDelivery,
  HugStore, HugContext, done, find_hug, is_open, accepted,
}
use cliqhub_core.Hugs.Parts.{assert_answerable, delivery_of}
use cliqhub_core.Hugs.Answer.{Attempt, Answer, respond, channels_reaching, addressed_to, is_for}
use cliqhub_core.Hugs.Told.{numbered_to}
use cliqhub_core.Hugs.Answered.{respond-Answered}
use cliqhub_core.Hugs.Settled.{answerable-is_open}

in_time : (h : Hug) (now : ℕ) → assert_answerable h now ≡ none → now < h.expires_at
unfolding assert_answerable
in_time h now e = by_status h.status e
  where
    by_status :
        (s : HugStatus)
        → elim s [
          | HugStatus.expired ↦ some HugError.gone
          | HugStatus.open_hug ↦ if leb h.expires_at now then some HugError.gone else none
          | HugStatus.closed ↦ some HugError.conflict
          | HugStatus.cancelled ↦ some HugError.conflict
        ]
          ≡ none
        → now < h.expires_at
    by_status open_hug q = ground arith
    by_status closed q = cc
    by_status expired q = cc
    by_status cancelled q = cc

-- A delivery of the hug that is addressed to the person, or to a shared channel.
abbrev pub Addressed : HugStore → Hug → String → Type 0
Addressed s h user_id =
    (d : HugDelivery) × In d s.deliveries
    × (d.hug_id ≡ h.id)
    × ((d.user_id ≡ none) ⊎ (d.user_id ≡ some user_id))

delivery-Addressed :
    (s : HugStore) (h : Hug) (user_id : String) (d : HugDelivery)
    → In d (filter (addressed_to user_id) (filter (delivery_of h.id) s.deliveries))
    → Addressed s h user_id
delivery-Addressed s h user_id d at =
    let (i, mine) =
      (In-filter_iff (addressed_to user_id) d (filter (delivery_of h.id) s.deliveries)).0 at in
    let (j, same) = (In-filter_iff (delivery_of h.id) d s.deliveries).0 i in
    (d, j, (eq_iff d.hug_id h.id).0 same, by_user d.user_id mine)
  where
    by_user : (o : Option String) → is_for o user_id ≡ true → (o ≡ none) ⊎ (o ≡ some user_id)
    by_user none m = inl refl
    by_user (some u) m = inr (ap some ((eq_iff u user_id).0 m))

channels_reaching-Addressed :
    (ctx : HugContext) (h : Hug) (user_id : String) (s : HugStore)
    → channels_reaching ctx h user_id s ≢ []
    → (ctx.can_view_runs user_id h.realm_id ≡ true) × Addressed s h user_id
unfolding channels_reaching distinct
channels_reaching-Addressed ctx h user_id s some_channel =
    elim (Bool-cases (ctx.can_view_runs user_id h.realm_id)) [
      | inr n ↦ absurd (some_channel (rw n refl))
      | inl t ↦ (t, first _ refl)
    ]
  where
    first :
        (ds : List HugDelivery)
        → filter (addressed_to user_id) (filter (delivery_of h.id) s.deliveries) ≡ ds
        → Addressed s h user_id
    first [] e = absurd (
        some_channel (
          if_cases (λ xs. xs ≡ []) (not (ctx.can_view_runs user_id h.realm_id)) [] _ (λ _. refl)
            (λ _. ap (λ ds. distinct (map (λ d. d.channel) ds)) e)))
    first (d ∷ ds) e = delivery-Addressed s h user_id d (subst (In d) (sym e) (inl refl))

-- An answer is accepted only where the hug is open and not past its expiry when the transaction holds
-- it; the person may view runs in its realm and a channel of the hug, their own or a shared one,
-- reached them; and the hug's template accepts the values. One event is written, the hug's, with the next
-- number, which is the one that is returned.
pub respond_accepted :
    (ctx : HugContext) (a : Attempt) (seen : HugStore) (input : Answer) (s t : HugStore) (seq : ℕ)
    → respond ctx a seen input s ≡ done (t, seq)
    → (h : Hug) × (find_hug input.hug_id seen.hugs ≡ some h)
      × (ctx.can_view_runs input.user_id h.realm_id ≡ true)
      × Addressed seen h input.user_id
      × ((values : Fields) × (ctx.check_answer h.template h.template_version h.params input.values
            ≡ accepted values))
      × ((locked : Hug) × (find_hug h.id s.hugs ≡ some locked)
          × (is_open locked.status ≡ true)
          × (a.locked_at < locked.expires_at))
      × (seq ≡ suc (numbered_to h.id s.hugs))
      × ((event : HugEventRow) × (t.hug_events ≡ s.hug_events ++ (event ∷ []))
          × (event.hug_id ≡ h.id)
          × (event.seq ≡ seq))
respond_accepted ctx a seen input s t seq e =
    let (w, number) = respond-Answered ctx a seen input s t seq e in
    let tr = w.transaction in
    let (may, addressed) =
      channels_reaching-Addressed ctx w.hug input.user_id seen w.is_addressed in
    (
      w.hug,
      w.is_asked,
      may,
      addressed,
      (w.values, w.is_valid),
      (
        tr.locked,
        tr.is_held,
        answerable-is_open tr.locked a.locked_at tr.is_answerable,
        in_time tr.locked a.locked_at tr.is_answerable,
      ),
      number ∙ tr.told.number,
      (tr.told.event, tr.told.events_after, tr.told.event_of, sym number),
    )
