-- ===== src/Hugs/Creates.antt =====
-- hugs.service.ts, `HugsService.create`: its steps in order.
use text.Mathlib.Text.{◌==◌}
use cliqhub_core.Prelude.{
  ℕ, String, List, [], ◌∷◌, Option, none, some, map, if◌then◌else◌, distinct, truthy,
}
use cliqhub_core.Json.{Fields, obj}
use cliqhub_core.Hugs.{
  Hug, HugNotSentTo, Notice, opened, no_access, HugStore, not_found, conflict, invalid_hug,
  invalid_params, HugResult, done, refused, ◌>>=◌, or_refuse, find_hug, CheckedAnswer, accepted,
  problems,
}
use cliqhub_core.Hugs.Opened.{ChannelDestination, CreateHugInput, insert_hug}
use cliqhub_core.Hugs.Create.{
  HugSpec, HugRequest, OpenContext, names_of, destinations_of, unresolved_of,
  check_context_artifacts, not_sent_to, noted, notice, unknown_notice, given_or,
}

-- A request that has passed the checks before its channels are resolved, or one that is a retry.
pub record Checked : Type 0 where
  pub spec : HugSpec
  pub params : Fields
  pub minutes : ℕ
  pub org_id : String

pub data Prepared : Type 0 where
  adopted : (id : String) → Prepared
  ready : Checked → Prepared

abbrev pub checked_params : CheckedAnswer → HugResult Fields
checked_params (accepted params) = done params
checked_params (problems p) = refused invalid_hug

abbrev adopt : HugRequest → Hug → HugResult Prepared
adopt input h = if h.run_id == input.run_id then done (adopted h.id) else refused conflict

abbrev pub existing_hug : Option String → List Hug → Option Hug
existing_hug none hugs = none
existing_hug (some id) hugs = find_hug id hugs

abbrev pub adopt_or : HugRequest → Option Hug → HugResult Prepared → HugResult Prepared
adopt_or input (some h) r = adopt input h
adopt_or input none r = r

unfoldable pub placed :
    OpenContext → HugRequest → HugSpec → Fields → ℕ → HugStore → HugResult Prepared
unfolding check_context_artifacts
placed ctx input spec params minutes s =
    or_refuse (truthy (ctx.org_of input.realm_id)) not_found >>= λ org_id.
    if check_context_artifacts params input.run_id s.artifacts
    then done (ready record { spec = spec; params = params; minutes = minutes; org_id = org_id })
    else refused invalid_hug

unfoldable pub prepare : OpenContext → HugRequest → HugStore → HugResult Prepared
unfolding placed
prepare ctx input s = or_refuse (ctx.parse_spec input.spec) invalid_hug >>= λ spec.
    checked_params (ctx.check_params spec.template spec.params) >>= λ params.
    or_refuse spec.expires_in_min invalid_hug >>= λ minutes.
    adopt_or input (existing_hug (truthy input.hug_id) s.hugs)
      (placed ctx input spec params minutes s)

abbrev pub hug_input :
    OpenContext
    → HugRequest
    → Checked
    → List String
    → List ChannelDestination
    → List HugNotSentTo
    → CreateHugInput
hug_input ctx input c names destinations denied = record {
  run_id = input.run_id;
  daemon_id = input.daemon_id;
  realm_id = input.realm_id;
  org_id = c.org_id;
  phase = input.phase;
  iteration = input.iteration;
  title = c.spec.title;
  template = ctx.template_name c.spec.template;
  template_version = ctx.template_version c.spec.template;
  params = obj c.params;
  channels = names;
  expires_in_min = c.minutes;
  reminders = c.spec.reminders;
  destinations = destinations;
  not_sent_to = denied;
}

abbrev opening_notices : String → String → List ChannelDestination → List HugNotSentTo → List Notice
opening_notices id run_id destinations denied =
    notice opened id (distinct (map (λ d. d.channel_id) destinations)) none
    ∷ map (λ (p : HugNotSentTo). notice no_access run_id [] (some p.user_id)) denied

-- A hug that was stored is announced, and those that were not asked are reported.
unfoldable pub announced :
    (id : String) → CreateHugInput → HugStore → HugResult HugStore → HugStore × HugResult String
unfolding distinct
announced id input s (refused e) = (s, refused e)
announced id input s (done t) =
    (noted (opening_notices id input.run_id input.destinations input.not_sent_to) t, done id)

-- Nothing is stored where nobody could answer.
unfoldable pub open_asked :
    OpenContext
    → HugRequest
    → Checked
    → (id : String) (now : ℕ) → List String
    → List ChannelDestination
    → HugStore
    → HugResult (List HugNotSentTo)
    → HugStore × HugResult String
unfolding announced insert_hug
open_asked ctx input c id now names destinations s (refused e) = (s, refused e)
open_asked ctx input c id now names destinations s (done denied) =
    let entry = hug_input ctx input c names destinations denied in
    announced id entry s (insert_hug id now entry s)

unfoldable pub open_reached :
    OpenContext
    → HugRequest
    → Checked
    → (id : String) (now : ℕ) → List String
    → List ChannelDestination
    → HugStore
    → HugStore × HugResult String
unfolding not_sent_to open_asked
open_reached ctx input c id now names [] s = (s, refused invalid_params)
open_reached ctx input c id now names (d ∷ ds) s =
    open_asked ctx input c id now names (d ∷ ds) s
      (not_sent_to ctx.hugs (ctx.people_reached (d ∷ ds)) input.realm_id)

-- Channels that are not known are reported before anything else is done with the channels.
unfoldable pub open_named :
    OpenContext
    → HugRequest
    → Checked
    → (id : String) (now : ℕ) → List String
    → HugStore
    → HugStore × HugResult String
unfolding open_reached destinations_of unresolved_of
open_named ctx input c id now [] s =
    (noted (unknown_notice input.run_id none ∷ []) s, refused invalid_params)
open_named ctx input c id now (n ∷ ns) s =
    open_reached ctx input c id now (n ∷ ns) (destinations_of ctx.channels_named (n ∷ ns)) (
      noted
        (map (λ u. unknown_notice input.run_id (some u))
          (unresolved_of ctx.channels_named (n ∷ ns)))
        s)

unfoldable pub open_prepared :
    OpenContext
    → HugRequest
    → (fresh : String) (now : ℕ) → HugStore
    → HugResult Prepared
    → HugStore × HugResult String
unfolding open_named distinct
open_prepared ctx input fresh now s (refused e) = (s, refused e)
open_prepared ctx input fresh now s (done (adopted id)) = (s, done id)
open_prepared ctx input fresh now s (done (ready c)) =
    open_named ctx input c (given_or input.hug_id fresh) now (distinct (names_of c.spec.channels)) s

-- `fresh` is the id that `randomUUID()` gives. The store is returned also where the request is refused,
-- with the notices that went out before.
unfoldable pub create :
    OpenContext → HugRequest → (fresh : String) (now : ℕ) → HugStore → HugStore × HugResult String
unfolding prepare open_prepared
create ctx input fresh now s = open_prepared ctx input fresh now s (prepare ctx input s)
