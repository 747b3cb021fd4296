-- ===== src/Hugs/Answer.antt =====
-- hugs.service.ts, `HugsService.respond`.
use text.Mathlib.Text.{◌==◌}
use cliqhub_core.Prelude.{
  ℕ, String, Bool, true, not, ◌&&◌, List, [], ◌∷◌, ◌++◌, Option, none, some, map, filter,
  if◌then◌else◌, distinct, trim, truthy, to_iso_string, update_where,
}
use cliqhub_core.Json.{Json, Fields, Items, nil, cons, end, field, str, arr, obj}
use cliqhub_core.Hugs.{
  response, Hug, HugDelivery, HugResponse, responded, HugStore, not_found, forbidden,
  invalid_values, unknown_template, HugResult, done, refused, ◌>>=◌, find_hug, or_refuse,
  CheckedAnswer, accepted, problems, Person, HugContext,
}
use cliqhub_core.Hugs.Files.{attach_files}
use cliqhub_core.Hugs.Parts.{
  assert_answerable, unless, append_seq, deliver, write_event, delivery_of, notify,
}

-- The delivery of a shared channel names no one.
abbrev pub is_for : Option String → String → Bool
is_for none user_id = true
is_for (some u) user_id = u == user_id

abbrev pub addressed_to : String → HugDelivery → Bool
addressed_to user_id d = is_for d.user_id user_id

unfoldable pub channels_reaching : HugContext → Hug → String → HugStore → List String
unfolding distinct
channels_reaching ctx h user_id s =
    if not (ctx.can_view_runs user_id h.realm_id)
    then []
    else distinct (
        map (λ d. d.channel)
          (filter (addressed_to user_id) (filter (delivery_of h.id) s.deliveries)))

abbrev or_text : Option String → String → String
or_text none t = t
or_text (some u) t = u

-- `a || b` of two optional texts.
abbrev either_text : Option String → Option String → Option String
either_text none b = b
either_text (some a) b = some a

abbrev trimmed : Option String → Option String
trimmed none = none
trimmed (some t) = some (trim t)

abbrev name_of : Option Person → String → String
name_of none id = id
name_of (some p) id = or_text (either_text (truthy (trimmed p.display_name)) (truthy p.username)) id

abbrev texts : List String → Items
texts [] = nil
texts (t ∷ ts) = cons (str t) (texts ts)

unfoldable pub response_data : HugContext → HugResponse → Fields
unfolding to_iso_string trim
response_data ctx r = field "response_id" (str r.id) (
    field "responder"
      (obj (
        field "user_id" (str r.responder_user_id)
          (field "name" (str (name_of (ctx.person r.responder_user_id) r.responder_user_id)) end)))
      (field "via" (arr (texts r.via_channels)) (
        field "values" (obj r.values)
          (field "responded_at" (str (to_iso_string r.updated_at)) end))))

abbrev find_response : String → String → List HugResponse → Option HugResponse
find_response hug_id user_id [] = none
find_response hug_id user_id (r ∷ rs) =
    let rest = find_response hug_id user_id rs in
    if r.hug_id == hug_id && (r.responder_user_id == user_id) then some r else rest

abbrev replaced : List String → Fields → ℕ → ℕ → HugResponse → HugResponse
replaced via values seq now r = record r {
  via_channels = via;
  values = values;
  seq = seq;
  updated_at = now;
}

-- The stored response and the table with it.
unfoldable pub save_response :
    (id : String) (now : ℕ)
    → Hug
    → String
    → List String
    → Fields
    → ℕ
    → List HugResponse
    → HugResponse × List HugResponse
unfolding update_where
save_response id now h user_id via values seq rows = elim (find_response h.id user_id rows) [
  | some old ↦ (
    replaced via values seq now old,
    update_where (λ r. r.id == old.id) (replaced via values seq now) rows,
  )
  | none ↦
      let new : HugResponse = record {
        id = id;
        hug_id = h.id;
        responder_user_id = user_id;
        via_channels = via;
        values = values;
        seq = seq;
        created_at = now;
        updated_at = now;
      } in
      (new, rows ++ (new ∷ []))
]

-- The clock at its four readings, and the two ids that `randomUUID()` gives.
pub record Attempt : Type 0 where
  pub checked_at : ℕ
  pub locked_at : ℕ
  pub written_at : ℕ
  pub sent_at : ℕ
  pub response_id : String
  pub tx_id : String

pub record Answer : Type 0 where
  pub hug_id : String
  pub user_id : String
  pub values : Json

abbrev pub accepted_values : CheckedAnswer → HugResult Fields
accepted_values (accepted values) = done values
accepted_values (problems p) = refused invalid_values

abbrev pub reached : List String → HugResult (List String)
reached [] = refused forbidden
reached (c ∷ cs) = done (c ∷ cs)

abbrev pub detail_of : HugContext → String → Option String
detail_of ctx user_id = some (name_of (ctx.person user_id) user_id)

-- The response, its event and its delivery, with the number that was taken.
unfoldable pub write_response :
    HugContext → Attempt → Hug → String → List String → Fields → HugStore → ℕ → HugStore
unfolding save_response write_event response_data deliver
write_response ctx a h user_id via values t seq =
    let saved = save_response a.response_id a.written_at h user_id via values seq t.responses in
    let payload = field "response" (obj (response_data ctx saved.0)) end in
    deliver a.tx_id a.sent_at h seq response payload
      (write_event a.written_at h seq response payload (record t { responses = saved.1 }))

unfoldable pub record_response :
    HugContext → Attempt → Hug → String → List String → Fields → HugStore → HugResult (HugStore × ℕ)
unfolding append_seq write_response
record_response ctx a h user_id via values s =
    append_seq h.id s >>= λ (t, seq). done (write_response ctx a h user_id via values t seq, seq)

-- The transaction, which reads the hug's row again and holds it.
unfoldable pub answer_locked :
    HugContext → Attempt → Hug → String → List String → Fields → HugStore → HugResult (HugStore × ℕ)
unfolding assert_answerable attach_files record_response
answer_locked ctx a h user_id via values s =
    or_refuse (find_hug h.id s.hugs) not_found >>= λ locked.
    unless (assert_answerable locked a.locked_at) (
      attach_files h user_id (ctx.inputs_of h.template h.template_version h.params)
        (values, s.artifacts)
      >>= λ (attached, artifacts).
          record_response ctx a h user_id via attached (record s { artifacts = artifacts }))

-- The checks before the transaction read the store `seen`, which may be older than the one it meets.
-- A refusal leaves the store as it is.
unfoldable pub respond :
    HugContext → Attempt → (seen : HugStore) → Answer → HugStore → HugResult (HugStore × ℕ)
unfolding assert_answerable channels_reaching answer_locked notify
respond ctx a seen input s = or_refuse (find_hug input.hug_id seen.hugs) not_found >>= λ h.
    unless (assert_answerable h a.checked_at) (
      reached (channels_reaching ctx h input.user_id seen) >>= λ via.
      if not (ctx.has_template h.template h.template_version)
      then refused unknown_template
      else accepted_values (ctx.check_answer h.template h.template_version h.params input.values)
        >>= λ values. answer_locked ctx a h input.user_id via values s >>= λ (t, seq).
            done (notify h responded (detail_of ctx input.user_id) t, seq))
