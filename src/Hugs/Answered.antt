-- ===== src/Hugs/Answered.antt =====
-- An answer that was accepted: what must have held, and what it did.
use cliqhub_core.Prelude.{ℕ, String, not, ◌≡◌, ◌≢◌, refl, List, [], ◌∷◌, Option, none, some}
use cliqhub_core.Json.{Fields}
use cliqhub_core.Hugs.{
  Hug, response, HugStore, HugError, done, refused, or_refuse, find_hug, HugContext, CheckedAnswer,
  accepted, problems, not_found, unknown_template, responded,
}
use cliqhub_core.Hugs.Parts.{assert_answerable, append_seq, notify}
use cliqhub_core.Hugs.Files.{attach_files}
use cliqhub_core.Hugs.Answer.{
  Attempt, Answer, respond, answer_locked, record_response, channels_reaching, write_response,
  reached, accepted_values, detail_of,
}
use cliqhub_core.Hugs.Rules.{
  OnDone, OnDone_elim, unless-OnDone, bind-OnDone, if-OnDone, OnDone-mono,
}
use cliqhub_core.Hugs.Told.{Told, Told_beside, Appended, deliver-Told, append_seq-Appended}

pub or_refuse-some :
    {A : Type 0} (o : Option A) (e : HugError) (a : A) → or_refuse o e ≡ done a → o ≡ some a
or_refuse-some none e a h = cc
or_refuse-some (some b) e a h = cc

-- The hug as the transaction met it, and what it did there.
pub record Locked (a : Attempt) (h : Hug) (s t : HugStore) : Type 0 where
  pub locked : Hug
  pub is_held : find_hug h.id s.hugs ≡ some locked
  pub is_answerable : assert_answerable locked a.locked_at ≡ none
  pub told : Told h s t

abbrev ToldTo : Hug → HugStore → HugStore × ℕ → Type 0
ToldTo h s (t, seq) = (w : Told h s t) × (seq ≡ (w.event).seq)

write_response-Told :
    (ctx : HugContext) (a : Attempt) (h : Hug) (user_id : String) (via : List String)
    (values : Fields) (s t : HugStore) (seq : ℕ)
    → Appended h.id s t seq
    → (w : Told h s (write_response ctx a h user_id via values t seq)) × (seq ≡ w.event.seq)
unfolding write_response deliver-Told
write_response-Told ctx a h user_id via values s t seq got = (
  deliver-Told a.tx_id a.sent_at a.written_at h seq response _ s _ record {
    is_there = got.is_there;
    number = got.number;
    hugs_after = got.hugs_after;
    same_events = got.same_events;
    same_queue = got.same_queue;
  },
  refl,
)

record_response-OnDone :
    (ctx : HugContext) (a : Attempt) (h : Hug) (user_id : String) (via : List String)
    (values : Fields) (s : HugStore)
    → OnDone (ToldTo h s) (record_response ctx a h user_id via values s)
unfolding record_response
record_response-OnDone ctx a h user_id via values s =
    bind-OnDone (ToldTo h s) (append_seq h.id s) _ λ (t, seq) e.
      write_response-Told ctx a h user_id via values s t seq (append_seq-Appended h.id s t seq e)

-- The transaction, from a store whose artifacts alone may differ.
abbrev LockedTo : Attempt → Hug → HugStore → HugStore × ℕ → Type 0
LockedTo a h s (t, seq) = (w : Locked a h s t) × (seq ≡ w.told.event.seq)

answer_locked-OnDone :
    (ctx : HugContext) (a : Attempt) (h : Hug) (user_id : String) (via : List String)
    (values : Fields) (s : HugStore)
    → OnDone (LockedTo a h s) (answer_locked ctx a h user_id via values s)
unfolding answer_locked Told_beside
answer_locked-OnDone ctx a h user_id via values s =
    bind-OnDone (LockedTo a h s) (or_refuse (find_hug h.id s.hugs) not_found) _ λ locked held.
      unless-OnDone (LockedTo a h s) (assert_answerable locked a.locked_at) _ λ answerable.
        bind-OnDone (LockedTo a h s)
          (attach_files h user_id (ctx.inputs_of h.template h.template_version h.params)
            (values, s.artifacts))
          _
          λ (attached, artifacts) _.
            OnDone-mono (ToldTo h (record s { artifacts = artifacts })) (LockedTo a h s)
              (record_response ctx a h user_id via attached (record s { artifacts = artifacts }))
              (λ (t, seq) w. (
                record {
                  locked = locked;
                  is_held = or_refuse-some (find_hug h.id s.hugs) not_found locked held;
                  is_answerable = answerable;
                  told = Told_beside h artifacts t.notices s t w.0;
                },
                w.1,
              ))
              (record_response-OnDone ctx a h user_id via attached
                (record s { artifacts = artifacts }))

-- What stands behind an answer that was accepted, and what it did.
pub record Answered (ctx : HugContext) (a : Attempt) (seen : HugStore) (input : Answer)
    (s t : HugStore) : Type 0 where
  pub hug : Hug
  pub is_asked : find_hug input.hug_id seen.hugs ≡ some hug
  pub is_addressed : channels_reaching ctx hug input.user_id seen ≢ []
  pub values : Fields
  pub is_valid :
      ctx.check_answer hug.template hug.template_version hug.params input.values ≡ accepted values
  pub transaction : Locked a hug s t

abbrev AnsweredTo : HugContext → Attempt → HugStore → Answer → HugStore → HugStore × ℕ → Type 0
AnsweredTo ctx a seen input s (t, seq) =
    (w : Answered ctx a seen input s t) × (seq ≡ w.transaction.told.event.seq)

reached_some : (cs via : List String) → reached cs ≡ done via → cs ≢ []
reached_some [] via e = cc
reached_some (c ∷ cs) via e = λ q. cc

accepted_is :
    (r : CheckedAnswer) (values : Fields) → accepted_values r ≡ done values → r ≡ accepted values
accepted_is (accepted v) values e = cc
accepted_is (problems p) values e = cc

respond-OnDone :
    (ctx : HugContext) (a : Attempt) (seen : HugStore) (input : Answer) (s : HugStore)
    → OnDone (AnsweredTo ctx a seen input s) (respond ctx a seen input s)
unfolding respond notify Told_beside
respond-OnDone ctx a seen input s =
    bind-OnDone P (or_refuse (find_hug input.hug_id seen.hugs) not_found) _ λ h asked.
      unless-OnDone P (assert_answerable h a.checked_at) _ λ _.
        bind-OnDone P (reached (channels_reaching ctx h input.user_id seen)) _ λ via addressed.
          if-OnDone P (not (ctx.has_template h.template h.template_version))
            (refused unknown_template) _ (λ _. tt)
            λ _.
              bind-OnDone P
                (accepted_values
                  (ctx.check_answer h.template h.template_version h.params input.values))
                _
                λ values valid.
                  bind-OnDone P (answer_locked ctx a h input.user_id via values s) _
                    λ (t, seq) done_so.
                      let w : LockedTo a h s (t, seq) =
                        OnDone_elim (LockedTo a h s)
                          (answer_locked ctx a h input.user_id via values s) (t, seq)
                          (answer_locked-OnDone ctx a h input.user_id via values s) done_so in
                      (
                        record {
                          hug = h;
                          is_asked =
                              or_refuse-some (find_hug input.hug_id seen.hugs) not_found h asked;
                          is_addressed =
                              reached_some (channels_reaching ctx h input.user_id seen) via
                                addressed;
                          values = values;
                          is_valid =
                              accepted_is
                                (ctx.check_answer h.template h.template_version h.params
                                  input.values)
                                values valid;
                          transaction = record {
                            locked = w.0.locked;
                            is_held = w.0.is_held;
                            is_answerable = w.0.is_answerable;
                            told =
                                Told_beside h s.artifacts
                                  (notify h responded (detail_of ctx input.user_id) t).notices s t
                                  w.0.told;
                          };
                        },
                        w.1,
                      )
  where
    P : HugStore × ℕ → Type 0
    P = AnsweredTo ctx a seen input s

pub respond-Answered :
    (ctx : HugContext) (a : Attempt) (seen : HugStore) (input : Answer) (s t : HugStore) (seq : ℕ)
    → respond ctx a seen input s ≡ done (t, seq)
    → (w : Answered ctx a seen input s t) × (seq ≡ w.transaction.told.event.seq)
respond-Answered ctx a seen input s t seq e =
    OnDone_elim (AnsweredTo ctx a seen input s) (respond ctx a seen input s) (t, seq)
      (respond-OnDone ctx a seen input s) e
