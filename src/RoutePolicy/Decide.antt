-- ===== src/RoutePolicy/Decide.antt =====
-- engine.ts, main entry: `decide`, with a function for each step of the policies on a record; the other
-- branches are in Cases.
pub mod Rules
pub mod Ensures
pub mod Grants
pub mod Records
pub mod Closed
use cliqhub_core.Prelude.{
  String, Bool, true, false, not, ◌&&◌, List, [], ◌∷◌, Option, none, some, if◌then◌else◌, truthy,
  includes, is_empty,
}
use cliqhub_core.Json.{Json, str, get_prop}
use cliqhub_core.Auth.{User, AuthContext}
use cliqhub_core.Auth.Access.{TeamAccess, is_id, can_view_team, anonymous}
use cliqhub_core.RoutePolicy.Policy.{
  Level, view, FieldRef, RecordKind, daemon, team, realm, DaemonRule, Otherwise, RealmNeed, OrgNeed,
  RealmPolicy, RecordPolicy, ScopePolicy, Policy, RecordScope, RequestLike, AccessStore, no_token,
  daemon_not_allowed, user_token_not_allowed, not_site_admin, not_found_or_hidden, scope_required,
  daemon_other_realm, GrantLevel, of_level, AccessGrant, Decision, allowed, denied, EngineOptions,
  is_allowed,
}
use cliqhub_core.RoutePolicy.Fields.{read_field, read_ids, FoundField, first_field}
use cliqhub_core.RoutePolicy.Standing.{
  is_daemon, is_site_admin, user_id, no_access, deny, deny_at, allow, judge_realm, judge_org,
}
use cliqhub_core.RoutePolicy.Engine.{
  with_record, best_standing, realms_of, realms_of_option, judge_daemon_realms, resolve_org_id,
  resolve_realm,
}
use cliqhub_core.RoutePolicy.Cases.{
  when_user, when_signed, has_rule, when_rule, of_record, admin_of, decide_site_admin, daemon_grant,
  decide_daemon_self, includes_id, has_text, decide_daemon_realm, decide_org, Named, name_by,
  named_realm, named_org, decide_neither, decide_scope_org, decide_scope_realm, all_daemons, ids_of,
  decide_daemons, decide_realm,
}

abbrev kind_text : RecordKind → String
kind_text realm = "realm id missing; handler validates"
kind_text RecordKind.run = "run id missing; handler validates"
kind_text RecordKind.hug = "hug id missing; handler validates"
kind_text RecordKind.artifact = "artifact id missing; handler validates"
kind_text RecordKind.event = "event id missing; handler validates"
kind_text RecordKind.custom_event = "custom_event id missing; handler validates"
kind_text daemon = "daemon id missing; handler validates"
kind_text RecordKind.workspace = "workspace id missing; handler validates"
kind_text RecordKind.invitation = "invitation id missing; handler validates"
kind_text RecordKind.channel = "channel id missing; handler validates"
kind_text RecordKind.rule = "rule id missing; handler validates"
kind_text team = "team id missing; handler validates"

-- `policy.org_perm ?? policy.perm ?? 'member'`.
abbrev org_perm_of : Option String → Option String → String
org_perm_of (some perm) p = perm
org_perm_of none (some perm) = perm
org_perm_of none none = "member"

-- A record with no realm: of an org, or with neither.
decide_unplaced : AccessStore → AuthContext → RecordPolicy → String → Option String → Decision
unfolding judge_org with_record
decide_unplaced store auth p id (some org_id) =
    with_record (judge_org store auth (some org_id) (org_perm_of p.org_perm p.perm)) p.kind id
decide_unplaced store auth p id none =
    if is_site_admin auth
    then allow (admin_of p.kind id)
    else denied 404 not_found_or_hidden (some (of_record p.kind id))
        (some "record has no realm or org")

decide_placed :
    AccessStore
    → EngineOptions
    → AuthContext
    → RecordPolicy
    → String
    → Option String
    → List String
    → Decision
unfolding decide_unplaced judge_realm best_standing with_record
decide_placed store opts auth p id org_id [] = decide_unplaced store auth p id (truthy org_id)
decide_placed store opts auth p id org_id (rid ∷ rids) =
    with_record
      (best_standing (λ r. judge_realm store auth (store.realm r) p.level p.perm p.daemon opts) rid
        rids)
      p.kind id

decide_found :
    AccessStore
    → EngineOptions
    → AuthContext
    → RecordPolicy
    → String
    → Option RecordScope
    → Decision
unfolding decide_placed realms_of
decide_found store opts auth p id none = deny_at 404 not_found_or_hidden (of_record p.kind id)
decide_found store opts auth p id (some s) =
    if not (is_daemon auth) && is_id (truthy s.owner_user_id) (user_id auth)
    then allow (admin_of p.kind id)
    else decide_placed store opts auth p id s.org_id (realms_of s)

decide_record :
    AccessStore
    → RequestLike
    → EngineOptions
    → AuthContext
    → RecordPolicy
    → RecordKind
    → Option FoundField
    → Decision
unfolding decide_found judge_realm resolve_realm with_record
decide_record store req opts auth p kind none = allowed no_access (some (kind_text kind))
decide_record store req opts auth p realm (some f) =
    with_record
      (judge_realm store auth (resolve_realm store req f.ref f.value) p.level p.perm p.daemon opts)
      realm f.value
decide_record store req opts auth p kind (some f) =
    decide_found store opts auth p f.value (store.record_scope p.kind f.value req)

abbrev daemon_of : Option AuthContext → Option AuthContext
daemon_of none = none
daemon_of (some auth) = if is_daemon auth then some auth else none

abbrev text_of : Json → Option String
text_of (str s) = if is_empty s then none else some s
text_of _ = none

-- The daemon that installs a team: the token of a daemon, and its id in the body.
abbrev installing :
    Option AuthContext → Option DaemonRule → Option String → Option (AuthContext × String)
installing (some auth) (some rule) (some id) = some (auth, id)
installing _ _ _ = none

decide_install : AccessStore → RequestLike → AuthContext × String → Decision
unfolding realms_of
decide_install store req (auth, id) =
    if has_text auth.realm_id
      && includes_id (realms_of_option (store.record_scope daemon id req)) auth.realm_id
    then allow (record (daemon_grant auth) { on_record = some (daemon, id) })
    else deny_at 401 daemon_other_realm (of_record daemon id)

abbrev context_of : Option AuthContext → AuthContext
context_of none = anonymous
context_of (some auth) = auth

view_team : AuthContext → String → Option TeamAccess → Decision
unfolding can_view_team
view_team auth id none = deny_at 404 not_found_or_hidden (of_record team id)
view_team auth id (some t) =
    if is_site_admin auth
    then allow (record (of_record team id) { level = some (of_level view) })
    else if can_view_team auth t
    then allow (record (of_record team id) { level = some (of_level view) })
    else deny_at 404 not_found_or_hidden (of_record team id)

abbrev team_of : Option RecordScope → Option TeamAccess
team_of none = none
team_of (some s) = s.team

decide_named_team : AccessStore → RequestLike → Option FoundField → Decision
unfolding view_team anonymous
decide_named_team store req none =
    when_signed req.auth (λ auth. allowed no_access (some "team id missing; handler validates"))
decide_named_team store req (some f) =
    view_team (context_of req.auth) f.value (team_of (store.record_scope team f.value req))

team_or_install :
    AccessStore → RequestLike → Option FoundField → Option (AuthContext × String) → Decision
unfolding decide_install decide_named_team
team_or_install store req f none = decide_named_team store req f
team_or_install store req f (some install) = decide_install store req install

decide_team : AccessStore → RequestLike → Option FoundField → Option DaemonRule → Decision
unfolding team_or_install get_prop
decide_team store req f rule =
    team_or_install store req f
      (installing (daemon_of req.auth) rule (text_of (get_prop req.body "daemon_id")))

decide_kind :
    AccessStore
    → RequestLike
    → EngineOptions
    → RecordPolicy
    → RecordKind
    → Option FoundField
    → Decision
unfolding decide_team decide_record
decide_kind store req opts p team f = decide_team store req f p.daemon
decide_kind store req opts p kind f =
    when_signed req.auth
      λ auth. when_rule auth p.daemon (decide_record store req opts auth p kind f)

abbrev is_present : Option String → Bool
is_present none = false
is_present (some s) = true

unfoldable pub decide : Policy → RequestLike → AccessStore → EngineOptions → Decision
unfolding decide_site_admin decide_daemon_self decide_daemon_realm decide_org decide_scope_realm
    named_realm decide_realm decide_kind read_field first_field
decide (Policy.by_body field when_present otherwise) req store opts =
    let present = decide when_present req store opts in
    let absent = decide otherwise req store opts in
    if is_present (read_field req field) then present else absent
decide Policy.public req store opts = allow no_access
decide Policy.bff_only req store opts = allow no_access
decide Policy.a2a_dispatch req store opts = allow no_access
decide (Policy.signed_in rule) req store opts =
    when_signed req.auth λ auth. when_rule auth rule (allow no_access)
decide (Policy.site_admin daemon_read) req store opts =
    when_signed req.auth λ auth. decide_site_admin auth daemon_read
decide (Policy.daemon_self token_only) req store opts =
    when_signed req.auth λ auth. decide_daemon_self auth token_only opts
decide (Policy.daemon_realm level) req store opts =
    when_signed req.auth λ auth. decide_daemon_realm auth opts
decide (Policy.org p) req store opts =
    when_signed req.auth λ auth. decide_org store auth (first_field req p.from) p.perm
decide (Policy.scope p) req store opts = when_signed req.auth λ auth.
    when_rule auth p.daemon (decide_scope_realm store req opts auth p (named_realm req p.realm))
decide (Policy.realm p) req store opts =
    when_signed req.auth
      λ auth. when_rule auth p.daemon (decide_realm store req opts auth p (first_field req p.from))
decide (Policy.on_record p) req store opts =
    decide_kind store req opts p p.kind (first_field req p.from)
