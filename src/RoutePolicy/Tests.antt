-- ===== src/RoutePolicy/Tests.antt =====
-- The engine on a small store: one live realm, one deleted realm, a run and a public team.
use text.Mathlib.Text.{◌==◌}
use cliqhub_core.Prelude.{
  String, true, false, [], ◌∷◌, Option, none, some, ◌≡◌, ◌↔◌, refl, if◌then◌else◌, trim,
}
use cliqhub_core.Json.{undefined, str, obj, field, end, get_prop}
use cliqhub_core.Auth.{SiteRole, AuthContext, AuthVia}
use cliqhub_core.Auth.Access.{TeamAccess, Visibility}
use cliqhub_core.RoutePolicy.Policy.{
  Level, RecordKind, FieldRef, Source, RealmPolicy, RecordPolicy, Policy, RealmInfo, RealmRole,
  RecordScope, RequestLike, AccessStore, EngineOptions, Decision, denied, is_allowed, DenyReason,
}
use cliqhub_core.RoutePolicy.Fields.{FoundField, first_field, read_field, value_text}
use cliqhub_core.RoutePolicy.Standing.{judge_realm}
use cliqhub_core.RoutePolicy.Engine.{realms_of, resolve_realm}
use cliqhub_core.RoutePolicy.Decide.{decide}
use cliqhub_core.RoutePolicy.Rights.{Holds}
use cliqhub_core.RoutePolicy.Levels.{Granted}
use cliqhub_core.RoutePolicy.Realm.{decide-realm_iff}
use cliqhub_core.RoutePolicy.Hidden.{judge_realm-hidden_iff, answer_of, hidden}
use cliqhub_core.RoutePolicy.Decide.Rules.{Ensures}
use cliqhub_core.RoutePolicy.Decide.Grants.{IsBacked, decide-IsBacked, IsPush, decide-IsPush}
use cliqhub_core.RoutePolicy.Decide.Records.{decide-record_iff, GrantedOnSome}
use cliqhub_core.RoutePolicy.Decide.Closed.{decide-IsOpen, IsOpen, effective}

abbrev home : RealmInfo
home = record { id = "r1"; org_id = none; owner_user_id = some "u1"; deleted = false }

abbrev gone : RealmInfo
gone = record { id = "r2"; org_id = none; owner_user_id = some "u1"; deleted = true }

abbrev realm_of : String → Option RealmInfo
realm_of id = if id == "r1" then some home else if id == "r2" then some gone else none

abbrev open_team : TeamAccess
open_team = record { visibility = Visibility.public; author_id = none; scope = none }

abbrev scope_of : RecordKind → String → RequestLike → Option RecordScope
scope_of RecordKind.team id req = some (record {
  realm_id = none;
  realm_ids = none;
  org_id = none;
  owner_user_id = none;
  team = some open_team;
})
scope_of _ id req = some (record {
  realm_id = none;
  realm_ids = some ("r2" ∷ "r1" ∷ []);
  org_id = none;
  owner_user_id = none;
  team = none;
})

abbrev small_store : AccessStore
small_store = record {
  realm = realm_of;
  realm_by_slug = λ org slug. none;
  realm_role = λ realm u. if u == "u2" then some RealmRole.member else none;
  org_role = λ org u. none;
  org_id_by_slug = λ slug. none;
  record_scope = scope_of;
}

abbrev closing : EngineOptions
closing = record { allow_pat_daemon_writes = false }

abbrev as_user : String → AuthContext
as_user id = record {
  user = some (record { id = id; role = SiteRole.user });
  org_ids = [];
  member_scopes = [];
  realm_id = none;
  auth_via = some AuthVia.jwt;
  token_permissions = none;
}

abbrev post : Option AuthContext → String → String → RequestLike
post auth key value = record {
  method = "POST";
  path = "/v1/x";
  body = obj (field key (str value) end);
  query = undefined;
  params = undefined;
  auth = auth;
}

abbrev by_id : FieldRef
by_id = record { where_in = Source.body; key = "id" }

abbrev operate_realm : RealmPolicy
operate_realm = record {
  from = by_id ∷ [];
  level = some Level.operate;
  perm = none;
  daemon = none;
  daemons = none;
}

abbrev on_kind : RecordKind → RecordPolicy
on_kind kind = record {
  kind = kind;
  from = by_id ∷ [];
  level = some Level.operate;
  perm = none;
  org_perm = none;
  daemon = none;
}

abbrev found_at : String → FoundField
found_at id = record { ref = by_id; value = id }

first_by_id :
    first_field (post (some (as_user "u1")) "id" " r1 ") (by_id ∷ []) ≡ some (found_at "r1")
unfolding first_field read_field get_prop value_text trim
first_by_id = refl

owner_operates :
    is_allowed (
      decide
        (Policy.realm operate_realm)
        (post (some (as_user "u1")) "id" " r1 ")
        small_store
        closing)
    ≡ true
unfolding decide trim
owner_operates = refl

owner_runs :
    is_allowed (
      decide
        (Policy.on_record (on_kind RecordKind.run))
        (post (some (as_user "u1")) "id" "x")
        small_store
        closing)
    ≡ true
unfolding decide trim
owner_runs = refl

stranger_refused :
    is_allowed (
      decide
        (Policy.realm operate_realm)
        (post (some (as_user "u3")) "id" "r1")
        small_store
        closing)
    ≡ false
unfolding decide trim
stranger_refused = refl

decide-realm_iff_example :
    (is_allowed (
        decide
          (Policy.realm operate_realm)
          (post (some (as_user "u1")) "id" " r1 ")
          small_store
          closing)
      ≡ true)
    ↔ ((realm : RealmInfo) × (resolve_realm small_store
            (post (some (as_user "u1")) "id" " r1 ")
            by_id
            "r1"
          ≡ some realm)
        × (realm.deleted ≡ false)
        × Granted small_store (as_user "u1") realm Level.operate none)
decide-realm_iff_example =
    decide-realm_iff operate_realm (post (some (as_user "u1")) "id" " r1 ") small_store closing refl
      refl refl first_by_id refl

decide-IsBacked_example : Ensures (IsBacked small_store (as_user "u1")) (
    decide
      (Policy.realm operate_realm)
      (post (some (as_user "u1")) "id" " r1 ")
      small_store
      closing)
decide-IsBacked_example =
    decide-IsBacked small_store closing (as_user "u1") (Policy.realm operate_realm)
      (post (some (as_user "u1")) "id" " r1 ") refl

decide-IsPush_example : Ensures (IsPush closing (as_user "u1")) (
    decide
      (Policy.realm operate_realm)
      (post (some (as_user "u1")) "id" " r1 ")
      small_store
      closing)
decide-IsPush_example =
    decide-IsPush small_store closing (as_user "u1") (Policy.realm operate_realm)
      (post (some (as_user "u1")) "id" " r1 ") refl

run_is_spanning :
    realms_of (record {
      realm_id = none;
      realm_ids = some ("r2" ∷ "r1" ∷ []);
      org_id = none;
      owner_user_id = none;
      team = none;
    })
    ≡ "r2" ∷ "r1" ∷ []
unfolding realms_of
run_is_spanning = refl

first_x : first_field (post (some (as_user "u1")) "id" "x") (by_id ∷ []) ≡ some (found_at "x")
unfolding first_field read_field get_prop value_text trim
first_x = refl

decide-record_iff_example :
    (is_allowed (
        decide
          (Policy.on_record (on_kind RecordKind.run))
          (post (some (as_user "u1")) "id" "x")
          small_store
          closing)
      ≡ true)
    ↔ GrantedOnSome small_store (as_user "u1") Level.operate none ("r2" ∷ "r1" ∷ [])
decide-record_iff_example =
    decide-record_iff (on_kind RecordKind.run) (post (some (as_user "u1")) "id" "x") small_store
      closing refl refl refl refl first_x refl refl run_is_spanning refl

judge_realm-hidden_iff_example :
    (answer_of
        (judge_realm small_store (as_user "u3") (some home) (some Level.view) none none closing)
      ≡ hidden)
    ↔ ((realm : RealmInfo)
        → some home ≡ some realm
        → realm.deleted ≡ false
        → (l : Level) → ¬ Holds small_store (as_user "u3") realm l)
judge_realm-hidden_iff_example =
    judge_realm-hidden_iff small_store (as_user "u3") Level.view none none closing refl (some home)

team_is_shown :
    is_allowed
      (decide (Policy.on_record (on_kind RecordKind.team)) (post none "id" "x") small_store closing)
    ≡ true
unfolding decide trim
team_is_shown = refl

decide-IsOpen_example :
    IsOpen small_store
      (post none "id" "x")
      (effective (post none "id" "x") (Policy.on_record (on_kind RecordKind.team)))
decide-IsOpen_example =
    decide-IsOpen small_store (post none "id" "x") closing refl refl
      (Policy.on_record (on_kind RecordKind.team)) team_is_shown

abbrev refuse : String → Decision
refuse rid =
    if rid == "r1"
    then denied 403 DenyReason.level_too_low none none
    else denied 404 DenyReason.not_found_or_hidden none none
