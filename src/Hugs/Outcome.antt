-- ===== src/Hugs/Outcome.antt =====
-- What comes of a call of `create` of hugs.service.ts.
use mathlib.Core.Path.{subst}
use cliqhub_core.Prelude.{
  ℕ, String, true, false, not, ◌≡◌, refl, ap, ◌∙◌, ◌⊎◌, List, [], ◌∷◌, In, none, map, filter, any,
  any_elim, if◌then◌else◌, truthy, distinct, Bool-cases, inl, inr,
}
use cliqhub_core.Hugs.{
  find_hug, HugNotSentTo, Notice, HugStore, no_one_can_answer, HugResult, done, refused, HugContext,
}
use cliqhub_core.Hugs.Opened.{
  ChannelDestination, CreateHugInput, store_hug, insert_hug, insert_hug_lem,
}
use cliqhub_core.Hugs.Create.{
  HugRequest, OpenContext, PeopleReached, ReachedPerson, given_or, may_see, names_of, denied_entry,
  not_sent_to, noted, destinations_of, check_context_artifacts,
}
use cliqhub_core.Hugs.Creates.{
  Checked, Prepared, adopted, ready, existing_hug, hug_input, prepare, announced, open_asked,
  open_reached, open_named, open_prepared, create,
}
use cliqhub_core.Hugs.Placed.{PreparedTo, prepare-PreparedTo}

-- Of two stores, all but the notices is the same.
pub record IsUnaltered (s t : HugStore) : Type 0 where
  pub hugs : t.hugs ≡ s.hugs
  pub deliveries : t.deliveries ≡ s.deliveries
  pub responses : t.responses ≡ s.responses
  pub hug_events : t.hug_events ≡ s.hug_events
  pub artifacts : t.artifacts ≡ s.artifacts
  pub queue : t.queue ≡ s.queue

-- Someone that is reached may answer, or may for all that is known, or there is nobody to ask.
abbrev pub HasAnswerer : HugContext → String → PeopleReached → Type 0
HasAnswerer ctx realm_id reach =
    ((p : ReachedPerson) × In p reach.people × (ctx.can_view_runs p.user_id realm_id ≡ true))
    ⊎ (reach.external ≡ true)
    ⊎ (reach.people ≡ [])

-- The hug `id` was opened.
pub record Placing (ctx : OpenContext) (input : HugRequest) (now : ℕ) (s t : HugStore) (id : String)
    : Type 0 where
  pub checked : Checked
  pub first : ChannelDestination
  pub others : List ChannelDestination
  pub denied : List HugNotSentTo
  pub is_checked : prepare ctx input s ≡ done (ready checked)
  pub is_free : existing_hug (truthy input.hug_id) s.hugs ≡ none
  pub is_new : find_hug id s.hugs ≡ none
  pub are_ready : check_context_artifacts checked.params input.run_id s.artifacts ≡ true
  pub reaches :
      destinations_of ctx.channels_named (distinct (names_of checked.spec.channels))
      ≡ first ∷ others
  pub is_reviewed :
      not_sent_to ctx.hugs (ctx.people_reached (first ∷ others)) input.realm_id ≡ done denied
  pub answerer : HasAnswerer ctx.hugs input.realm_id (ctx.people_reached (first ∷ others))
  pub is_stored :
      IsUnaltered
        (store_hug id now
          (hug_input ctx input checked
            (distinct (names_of checked.spec.channels))
            (first ∷ others)
            denied)
          s)
        t

abbrev pub Outcome :
    OpenContext
    → HugRequest
    → (fresh : String) (now : ℕ) → HugStore
    → HugStore × HugResult String
    → Type 0
Outcome ctx input fresh now s (t, refused e) = IsUnaltered s t
Outcome ctx input fresh now s (t, done id) =
    (PreparedTo input s (adopted id) × (t ≡ s))
    ⊎ (Placing ctx input now s t id × (id ≡ given_or input.hug_id fresh))

not_sent_to-HasAnswerer :
    (ctx : HugContext) (reach : PeopleReached) (realm_id : String) (denied : List HugNotSentTo)
    → not_sent_to ctx reach realm_id ≡ done denied
    → HasAnswerer ctx realm_id reach
unfolding not_sent_to
not_sent_to-HasAnswerer ctx reach realm_id denied e =
    elim (Bool-cases (any (may_see ctx realm_id) reach.people)) [
      | inl t ↦ inl (any_elim (may_see ctx realm_id) reach.people t)
      | inr n ↦ elim (Bool-cases reach.external) [
        | inl x ↦ inr (inl x)
        | inr m ↦ inr (inr (nobody reach.people n (rw (n, m) at e)))
      ]
    ]
  where
    unlike :
        {x : HugResult (List HugNotSentTo)} → x ≡ refused no_one_can_answer → x ≡ done denied → ⊥
    unlike a b = cc

    nobody :
        (people : List ReachedPerson)
        → any (may_see ctx realm_id) people ≡ false
        → (if any (λ p. not (may_see ctx realm_id p)) people
            then refused no_one_can_answer
            else done (map (denied_entry ctx) (filter (λ p. not (may_see ctx realm_id p)) people)))
          ≡ done denied
        → people ≡ []
    nobody [] n e = refl
    nobody (p ∷ ps) n e = elim (Bool-cases (may_see ctx realm_id p)) [
      | inl u ↦ cc (rw u at n)
      | inr v ↦ absurd (unlike refl (rw v at e))
    ]

noted_after :
    (ns : List Notice) (t : HugStore) (id : String) (now : ℕ) (entry : CreateHugInput)
    (s s1 : HugStore)
    → t ≡ store_hug id now entry s1
    → IsUnaltered s s1
    → IsUnaltered (store_hug id now entry s) (noted ns t)
unfolding store_hug
noted_after ns t id now entry s s1 e same = record {
  hugs = ap (λ x. x.hugs) e ∙ rw (same.hugs) refl;
  deliveries = ap (λ x. x.deliveries) e ∙ rw (same.deliveries) refl;
  responses = ap (λ x. x.responses) e ∙ same.responses;
  hug_events = ap (λ x. x.hug_events) e ∙ same.hug_events;
  artifacts = ap (λ x. x.artifacts) e ∙ same.artifacts;
  queue = ap (λ x. x.queue) e ∙ same.queue;
}

open_asked-Outcome :
    (ctx : OpenContext) (input : HugRequest) (c : Checked) (fresh : String) (now : ℕ)
    (d : ChannelDestination) (ds : List ChannelDestination) (s s1 : HugStore)
    → prepare ctx input s ≡ done (ready c)
    → destinations_of ctx.channels_named (distinct (names_of c.spec.channels)) ≡ d ∷ ds
    → IsUnaltered s s1
    → (r : HugResult (List HugNotSentTo))
    → not_sent_to ctx.hugs (ctx.people_reached (d ∷ ds)) input.realm_id ≡ r
    → Outcome ctx input fresh now s (
        open_asked ctx input c
          (given_or input.hug_id fresh)
          now
          (distinct (names_of c.spec.channels))
          (d ∷ ds)
          s1
          r)
unfolding open_asked announced
open_asked-Outcome ctx input c fresh now d ds s s1 is_ready reaches same (refused e) h = same
open_asked-Outcome ctx input c fresh now d ds s s1 is_ready reaches same (done denied) h =
    stored (insert_hug (given_or input.hug_id fresh) now entry s1)
      (insert_hug_lem (given_or input.hug_id fresh) now entry s1)
  where
    entry : CreateHugInput
    entry = hug_input ctx input c (distinct (names_of c.spec.channels)) (d ∷ ds) denied

    stored :
        (r : HugResult HugStore)
        → ((t : HugStore)
            → r ≡ done t
            → (find_hug (given_or input.hug_id fresh) s1.hugs ≡ none)
              × (t ≡ store_hug (given_or input.hug_id fresh) now entry s1))
        → Outcome ctx input fresh now s (announced (given_or input.hug_id fresh) entry s1 r)
    stored (refused e) made = same
    stored (done t) made = inr (
      record {
        checked = c;
        first = d;
        others = ds;
        denied = denied;
        is_checked = is_ready;
        is_reviewed = h;
        is_free = (prepare-PreparedTo ctx input s (ready c) is_ready).0;
        is_new =
            subst (λ hugs. find_hug (given_or input.hug_id fresh) hugs ≡ none) same.hugs
              (made t refl).0;
        are_ready = (prepare-PreparedTo ctx input s (ready c) is_ready).1;
        reaches = reaches;
        answerer =
            not_sent_to-HasAnswerer ctx.hugs (ctx.people_reached (d ∷ ds)) input.realm_id denied h;
        is_stored =
            noted_after _ t (given_or input.hug_id fresh) now entry s s1 (made t refl).1 same;
      },
      refl,
    )

open_reached-Outcome :
    (ctx : OpenContext) (input : HugRequest) (c : Checked) (fresh : String) (now : ℕ)
    (ds : List ChannelDestination) (s s1 : HugStore)
    → prepare ctx input s ≡ done (ready c)
    → destinations_of ctx.channels_named (distinct (names_of c.spec.channels)) ≡ ds
    → IsUnaltered s s1
    → Outcome ctx input fresh now s (
        open_reached ctx input c
          (given_or input.hug_id fresh)
          now
          (distinct (names_of c.spec.channels))
          ds
          s1)
unfolding open_reached
open_reached-Outcome ctx input c fresh now [] s s1 is_ready reaches same = same
open_reached-Outcome ctx input c fresh now (d ∷ ds) s s1 is_ready reaches same =
    open_asked-Outcome ctx input c fresh now d ds s s1 is_ready reaches same _ refl

unaltered : (s : HugStore) → IsUnaltered s s
unaltered s = record {
  hugs = refl;
  deliveries = refl;
  responses = refl;
  hug_events = refl;
  artifacts = refl;
  queue = refl;
}

noted-IsUnaltered : (ns : List Notice) (s : HugStore) → IsUnaltered s (noted ns s)
noted-IsUnaltered ns s = record {
  hugs = refl;
  deliveries = refl;
  responses = refl;
  hug_events = refl;
  artifacts = refl;
  queue = refl;
}

open_named-Outcome :
    (ctx : OpenContext) (input : HugRequest) (c : Checked) (fresh : String) (now : ℕ) (s : HugStore)
    (names : List String)
    → prepare ctx input s ≡ done (ready c)
    → distinct (names_of c.spec.channels) ≡ names
    → Outcome ctx input fresh now s
        (open_named ctx input c (given_or input.hug_id fresh) now names s)
unfolding open_named
open_named-Outcome ctx input c fresh now s [] is_ready same = noted-IsUnaltered _ s
open_named-Outcome ctx input c fresh now s (n ∷ ns) is_ready same =
    subst
      (λ names.
        (s1 : HugStore)
        → IsUnaltered s s1
        → Outcome ctx input fresh now s (
            open_reached ctx input c (given_or input.hug_id fresh) now names
              (destinations_of ctx.channels_named names) s1))
      same (λ s1. open_reached-Outcome ctx input c fresh now _ s s1 is_ready refl) _
      (noted-IsUnaltered _ s)

pub create-Outcome :
    (ctx : OpenContext) (input : HugRequest) (fresh : String) (now : ℕ) (s : HugStore)
    → Outcome ctx input fresh now s (create ctx input fresh now s)
unfolding create open_prepared open_named
create-Outcome ctx input fresh now s = prepared (prepare ctx input s) refl
  where
    prepared :
        (r : HugResult Prepared)
        → prepare ctx input s ≡ r
        → Outcome ctx input fresh now s (open_prepared ctx input fresh now s r)
    prepared (refused e) h = unaltered s
    prepared (done (adopted id)) h = inl (prepare-PreparedTo ctx input s (adopted id) h, refl)
    prepared (done (ready c)) h = open_named-Outcome ctx input c fresh now s _ h refl
