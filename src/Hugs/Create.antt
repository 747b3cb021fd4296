-- ===== src/Hugs/Create.antt =====
-- hugs.service.ts, `HugsService.create`, and `resolve_channels` of channel_resolution.service.ts.
use text.Mathlib.Text.{◌==◌}
use cliqhub_core.Prelude.{
  ℕ, String, Bool, true, false, not, ◌&&◌, List, [], ◌∷◌, ◌++◌, Option, none, some, map, filter,
  any, all, if◌then◌else◌, distinct, trim, truthy, is_empty,
}
use cliqhub_core.Json.{Json, Fields, str, arr, items, get_prop, get_field}
use cliqhub_core.Hugs.{
  HugNotSentTo, Reminders, StoredArtifact, Notice, NoticeType, unknown_channel, HugStore,
  no_one_can_answer, HugResult, done, refused, CheckedAnswer, Person, HugContext,
}
use cliqhub_core.Hugs.Opened.{ChannelDestination}

pub record HugSpec : Type 0 where
  pub title : String
  pub template : String
  pub params : Json
  pub channels : Option (List String)
  pub expires_in_min : Option ℕ
  pub reminders : Option Reminders

pub record HugRequest : Type 0 where
  pub hug_id : Option String
  pub run_id : String
  pub daemon_id : String
  pub realm_id : String
  pub phase : String
  pub iteration : ℕ
  pub spec : Json

-- A channel that a name reaches.
pub record ResolvedChannel : Type 0 where
  pub id : String
  pub user_id : Option String

pub record ReachedPerson : Type 0 where
  pub user_id : String
  pub channel : String

pub record PeopleReached : Type 0 where
  pub people : List ReachedPerson
  pub external : Bool

-- The schema and the templates of `@getcliqio/cliq-sdk`, and the tables of realms, channels and members,
-- as of the call.
pub record OpenContext : Type 0 where
  pub hugs : HugContext
  pub parse_spec : Json → Option HugSpec
  pub template_name : String → String
  pub template_version : String → ℕ
  pub check_params : String → Json → CheckedAnswer
  pub org_of : String → Option String
  pub channels_named : String → List ResolvedChannel
  pub people_reached : List ChannelDestination → PeopleReached

abbrev pub kept_names : List String → List String
kept_names names = filter (λ n. not (is_empty n)) (map trim names)

abbrev pub names_of : Option (List String) → List String
names_of none = []
names_of (some names) = kept_names names

abbrev destination_of : String → ResolvedChannel → ChannelDestination
destination_of name c = record { channel = name; channel_id = c.id; user_id = c.user_id }

-- The two parts of what `resolve_channels` returns; its names are trimmed and distinct already.
unfoldable pub destinations_of :
    (String → List ResolvedChannel) → List String → List ChannelDestination
destinations_of named [] = []
destinations_of named (n ∷ ns) = map (destination_of n) (named n) ++ destinations_of named ns

abbrev is_nowhere : List ResolvedChannel → Bool
is_nowhere [] = true
is_nowhere (c ∷ cs) = false

unfoldable pub unresolved_of : (String → List ResolvedChannel) → List String → List String
unresolved_of named names = filter (λ n. is_nowhere (named n)) names

abbrev blocks_of : Json → List Json
blocks_of (arr vs) = items vs
blocks_of _ = []

abbrev is_artifact_block : Json → Bool
is_artifact_block b = elim (get_prop b "type") [ str t ↦ t == "artifact" | _ ↦ false ]

-- The schema of the params gives each artifact block a text.
abbrev id_in : Json → String
id_in b = elim (get_prop b "artifact_id") [ str t ↦ t | _ ↦ "" ]

abbrev pub is_ready_of : String → String → StoredArtifact → Bool
is_ready_of run_id id a =
    a.id == id && (elim (a.run_id) [ some r ↦ r == run_id | none ↦ false ]) && (a.status == "ready")

unfoldable pub artifact_ids : Fields → List String
unfolding distinct get_field get_prop
artifact_ids params =
    distinct (map id_in (filter is_artifact_block (blocks_of (get_field params "context"))))

-- `_check_context_artifacts` throws unless each id is found.
unfoldable pub check_context_artifacts : Fields → String → List StoredArtifact → Bool
unfolding artifact_ids
check_context_artifacts params run_id rows =
    all (λ id. any (is_ready_of run_id id) rows) (artifact_ids params)

abbrev first_text : Option String → Option String → String → String
first_text none none id = id
first_text none (some d) id = d
first_text (some u) d id = u

abbrev person_name : Option Person → String → String
person_name none id = id
person_name (some p) id = first_text (truthy p.username) (truthy p.display_name) id

abbrev pub may_see : HugContext → String → ReachedPerson → Bool
may_see ctx realm_id p = ctx.can_view_runs p.user_id realm_id

abbrev pub denied_entry : HugContext → ReachedPerson → HugNotSentTo
denied_entry ctx p = record {
  user_id = p.user_id;
  name = person_name (ctx.person p.user_id) p.user_id;
  channel = p.channel;
}

-- `_not_sent_to`: refused where nobody it reaches could answer.
unfoldable pub not_sent_to : HugContext → PeopleReached → String → HugResult (List HugNotSentTo)
not_sent_to ctx reach realm_id =
    if not (any (may_see ctx realm_id) reach.people)
      && not reach.external
      && any (λ p. not (may_see ctx realm_id p)) reach.people
    then refused no_one_can_answer
    else done (map (denied_entry ctx) (filter (λ p. not (may_see ctx realm_id p)) reach.people))

abbrev pub notice : NoticeType → String → List String → Option String → Notice
notice type_of about ids detail = record {
  type_of = type_of;
  about = about;
  channel_ids = ids;
  detail = detail;
}

abbrev pub noted : List Notice → HugStore → HugStore
noted ns s = record s { notices = s.notices ++ ns }

abbrev pub unknown_notice : String → Option String → Notice
unknown_notice run_id name = notice unknown_channel run_id [] name

abbrev pub given_or : Option String → String → String
given_or none fresh = fresh
given_or (some id) fresh = id
