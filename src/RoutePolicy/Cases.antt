-- ===== src/RoutePolicy/Cases.antt =====
-- engine.ts, main entry: the branches of `decide` for policies that load no record by its kind.
use cliqhub_core.Prelude.{
  String, Bool, true, false, not, ◌&&◌, List, [], ◌∷◌, Option, none, some, if◌then◌else◌, includes,
  is_empty,
}
use cliqhub_core.Auth.{User, AuthContext}
use cliqhub_core.RoutePolicy.Policy.{
  Level, FieldRef, RecordKind, DaemonRule, Otherwise, RealmNeed, OrgNeed, RealmPolicy, ScopePolicy,
  RequestLike, AccessStore, no_token, daemon_not_allowed, user_token_not_allowed, not_site_admin,
  scope_required, daemon_other_realm, GrantLevel, of_level, AccessGrant, Decision, allowed,
  EngineOptions, is_allowed,
}
use cliqhub_core.RoutePolicy.Fields.{read_ids, FoundField, first_field}
use cliqhub_core.RoutePolicy.Standing.{
  is_daemon, is_site_admin, no_access, deny, allow, judge_realm, judge_org,
}
use cliqhub_core.RoutePolicy.Engine.{judge_daemon_realms, resolve_org_id, resolve_realm}

-- `if (!signed) return deny(401, 'no_token')`, and the rest with the context.
abbrev pub when_user : Option User → Decision → Decision
when_user none d = deny 401 no_token
when_user (some u) d = d

abbrev pub when_signed : Option AuthContext → (AuthContext → Decision) → Decision
when_signed none rest = deny 401 no_token
when_signed (some auth) rest = when_user auth.user (rest auth)

-- `if (is_daemon(auth) && !policy.daemon) return deny(403, 'daemon_not_allowed')`.
abbrev pub has_rule : Option DaemonRule → Bool
has_rule none = false
has_rule (some rule) = true

abbrev pub when_rule : AuthContext → Option DaemonRule → Decision → Decision
when_rule auth rule d =
    if is_daemon auth && not (has_rule rule) then deny 403 daemon_not_allowed else d

abbrev pub of_record : RecordKind → String → AccessGrant
of_record kind id = record no_access { on_record = some (kind, id) }

abbrev pub admin_of : RecordKind → String → AccessGrant
admin_of kind id = record (of_record kind id) { level = some (of_level Level.admin) }

unfoldable pub decide_site_admin : AuthContext → Bool → Decision
decide_site_admin auth daemon_read =
    if is_daemon auth
    then if daemon_read
      then allow (record no_access { level = some GrantLevel.daemon })
      else deny 403 daemon_not_allowed
    else if is_site_admin auth
    then allow (record no_access { level = some (of_level Level.admin) })
    else deny 403 not_site_admin

abbrev pub daemon_grant : AuthContext → AccessGrant
daemon_grant auth = record no_access { realm_id = auth.realm_id; level = some GrantLevel.daemon }

unfoldable pub decide_daemon_self : AuthContext → Bool → EngineOptions → Decision
decide_daemon_self auth token_only opts =
    if is_daemon auth
    then allow (daemon_grant auth)
    else if token_only
    then deny 403 user_token_not_allowed
    else if opts.allow_pat_daemon_writes
    then allow (record no_access { pat_daemon_write = true })
    else deny 403 user_token_not_allowed

abbrev pub includes_id : List String → Option String → Bool
includes_id ids none = false
includes_id ids (some id) = includes ids id

abbrev pub has_text : Option String → Bool
has_text none = false
has_text (some s) = not (is_empty s)

unfoldable pub decide_daemon_realm : AuthContext → EngineOptions → Decision
decide_daemon_realm auth opts =
    if is_daemon auth
    then if has_text auth.realm_id then allow (daemon_grant auth) else deny 403 daemon_other_realm
    else if opts.allow_pat_daemon_writes
    then allowed (record no_access { pat_daemon_write = true }) (some "realm resolved by handler")
    else deny 403 user_token_not_allowed

unfoldable pub decide_org : AccessStore → AuthContext → Option FoundField → String → Decision
unfolding judge_org resolve_org_id
decide_org store auth none perm = allowed no_access (some "org id missing; handler validates")
decide_org store auth (some f) perm = judge_org store auth (resolve_org_id store f.ref f.value) perm

-- The realm of a scope policy with the field that names it, if the request has one.
pub record Named (A : Type 0) : Type 0 where
  pub need : A
  pub field : FoundField

abbrev pub name_by : {A : Type 0} → A → Option FoundField → Option (Named A)
name_by need none = none
name_by need (some f) = some (record { need = need; field = f })

unfoldable pub named_realm : RequestLike → Option RealmNeed → Option (Named RealmNeed)
unfolding first_field
named_realm req none = none
named_realm req (some need) = name_by need (first_field req need.from)

unfoldable pub named_org : RequestLike → Option OrgNeed → Option (Named OrgNeed)
unfolding first_field
named_org req none = none
named_org req (some need) = name_by need (first_field req need.from)

abbrev pub decide_neither : Otherwise → Decision
decide_neither Otherwise.required = deny 400 scope_required
decide_neither Otherwise.none = allow no_access

unfoldable pub decide_scope_org :
    AccessStore → AuthContext → Option (Named OrgNeed) → Otherwise → Decision
unfolding judge_org resolve_org_id
decide_scope_org store auth none otherwise = decide_neither otherwise
decide_scope_org store auth (some o) otherwise =
    if is_daemon auth
    then allowed (record no_access { org_id = some o.field.value; level = some GrantLevel.daemon })
        (some "daemon org scope: handler checks")
    else judge_org store auth (resolve_org_id store o.field.ref o.field.value) o.need.perm

unfoldable pub decide_scope_realm :
    AccessStore
    → RequestLike
    → EngineOptions
    → AuthContext
    → ScopePolicy
    → Option (Named RealmNeed)
    → Decision
unfolding judge_realm resolve_realm decide_scope_org named_org
decide_scope_realm store req opts auth p (some r) =
    judge_realm store auth (resolve_realm store req r.field.ref r.field.value) (some r.need.level)
      r.need.perm p.daemon opts
decide_scope_realm store req opts auth p none =
    decide_scope_org store auth (named_org req p.org) p.otherwise

-- Every daemon that the request targets must be allowed; the first decision is returned.
unfoldable pub all_daemons : (String → Decision) → Decision → List String → Decision
all_daemons judge first [] = first
all_daemons judge first (id ∷ ids) =
    let rest = all_daemons judge first ids in let d = judge id in if is_allowed d then rest else d

unfoldable pub ids_of : RequestLike → Option (List FieldRef) → List String
unfolding read_ids
ids_of req none = []
ids_of req (some refs) = read_ids req refs

unfoldable pub decide_daemons : (String → Decision) → List String → Decision
unfolding all_daemons
decide_daemons judge [] = allowed no_access (some "realm id missing; handler validates")
decide_daemons judge (id ∷ ids) =
    let d = judge id in if is_allowed d then all_daemons judge d ids else d

unfoldable pub decide_realm :
    AccessStore
    → RequestLike
    → EngineOptions
    → AuthContext
    → RealmPolicy
    → Option FoundField
    → Decision
unfolding decide_daemons ids_of judge_daemon_realms judge_realm resolve_realm
decide_realm store req opts auth p none =
    decide_daemons (λ id. judge_daemon_realms store req auth id p.level p.perm p.daemon opts)
      (ids_of req p.daemons)
decide_realm store req opts auth p (some f) =
    judge_realm store auth (resolve_realm store req f.ref f.value) p.level p.perm p.daemon opts
