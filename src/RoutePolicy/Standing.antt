-- ===== src/RoutePolicy/Standing.antt =====
-- engine.ts, helpers and "realm / org evaluation": what a caller may do on one realm or in one org.
use text.Mathlib.Text.{◌==◌}
use cliqhub_core.Prelude.{
  ℕ, String, Bool, true, false, not, ◌&&◌, ◌||◌, Option, none, some, if◌then◌else◌, leb, ltb,
  truthy, includes,
}
use cliqhub_core.Auth.{User, AuthContext, is_daemon_token, has_admin_role}
use cliqhub_core.Auth.Access.{is_id}
use cliqhub_core.RoutePolicy.Policy.{
  Level, view, operate, level_rank, DaemonRule, OrgRoleInfo, RealmInfo, RealmRole, operator, member,
  AccessStore, DenyReason, not_found_or_hidden, level_too_low, missing_permission,
  daemon_not_allowed, daemon_other_realm, user_token_not_allowed, GrantLevel, of_level, AccessGrant,
  Decision, allowed, denied, EngineOptions,
}

abbrev pub is_daemon : AuthContext → Bool
is_daemon auth = is_daemon_token auth.auth_via

abbrev pub is_site_admin : AuthContext → Bool
is_site_admin auth = not (is_daemon auth) && has_admin_role auth.user

-- `auth.user!.id`. The engine reads it behind a check that the user is there.
abbrev id_of : Option User → String
id_of none = ""
id_of (some u) = u.id

abbrev pub user_id : AuthContext → String
user_id auth = id_of auth.user

abbrev pub no_access : AccessGrant
no_access = record {
  org_id = none;
  realm_id = none;
  level = none;
  on_record = none;
  pat_daemon_write = false;
}

abbrev pub deny : ℕ → DenyReason → Decision
deny status reason = denied status reason none none

abbrev pub deny_at : ℕ → DenyReason → AccessGrant → Decision
deny_at status reason access = denied status reason (some access) none

abbrev pub allow : AccessGrant → Decision
allow access = allowed access none

abbrev pub realm_role_level : RealmRole → Level
realm_role_level RealmRole.admin = Level.admin
realm_role_level operator = operate
realm_role_level member = view

unfoldable pub max_level : Option Level → Option Level → Option Level
max_level none b = b
max_level (some a) none = some a
max_level (some a) (some b) = if leb (level_rank b) (level_rank a) then some a else some b

unfoldable pub role_has : Option OrgRoleInfo → String → Bool
role_has none perm = false
role_has (some role) perm = if role.is_system then true else includes role.permissions perm

pub record RealmStanding : Type 0 where
  pub realm : RealmInfo
  pub level : Option Level
  pub org_role : Option OrgRoleInfo

abbrev pub level_of_role : Option RealmRole → Option Level
level_of_role none = none
level_of_role (some role) = some (realm_role_level role)

-- An owner or an admin of the org has the level admin on each of its realms.
abbrev pub leads_org : OrgRoleInfo → Bool
leads_org role = role.is_system || role.slug == "admin"

abbrev pub raise_org : Option OrgRoleInfo → Option Level → Option Level
raise_org none level = level
raise_org (some role) level = if leads_org role then some Level.admin else level

abbrev pub raise_owner : Bool → Option Level → Option Level
raise_owner true level = max_level level (some Level.admin)
raise_owner false level = level

abbrev pub org_role_in : AccessStore → Option String → String → Option OrgRoleInfo
org_role_in store none uid = none
org_role_in store (some org_id) uid = store.org_role org_id uid

unfoldable pub realm_standing : AccessStore → AuthContext → RealmInfo → RealmStanding
unfolding max_level
realm_standing store auth realm =
    if is_site_admin auth
    then record { realm = realm; level = some Level.admin; org_role = none }
    else let org_role = org_role_in store (truthy realm.org_id) (user_id auth) in
      record {
        realm = realm;
        level =
            raise_owner (is_id (truthy realm.owner_user_id) (user_id auth))
              (raise_org org_role (level_of_role (store.realm_role realm.id (user_id auth))));
        org_role = org_role;
      }

abbrev pub below : Option Level → Level → Bool
below none have = false
below (some need) have = ltb (level_rank have) (level_rank need)

abbrev pub lacks : Option String → Option OrgRoleInfo → Bool
lacks none role = false
lacks (some perm) none = false
lacks (some perm) (some role) = if perm == "" then false else not (role_has (some role) perm)

abbrev need_text : Option Level → String
need_text none = "needs null"
need_text (some view) = "needs view"
need_text (some operate) = "needs operate"
need_text (some Level.admin) = "needs admin"

judge_level :
    Level
    → Option OrgRoleInfo
    → AccessGrant
    → Option Level
    → Option String
    → AuthContext
    → Option Decision
judge_level have role access need perm auth =
    if below need have
    then some (denied 403 level_too_low (some access) (some (need_text need)))
    else if not (is_site_admin auth) && lacks perm role
    then some (denied 403 missing_permission (some access) perm)
    else none

judge_option :
    Option Level
    → Option OrgRoleInfo
    → AccessGrant
    → Option Level
    → Option String
    → AuthContext
    → Option Decision
judge_option none role access need perm auth = some (deny_at 404 not_found_or_hidden access)
judge_option (some have) role access need perm auth = judge_level have role access need perm auth

abbrev pub grant_level : Option Level → Option GrantLevel
grant_level none = none
grant_level (some l) = some (of_level l)

abbrev pub realm_access : RealmInfo → Option GrantLevel → AccessGrant
realm_access realm level = record no_access {
  realm_id = some realm.id;
  org_id = realm.org_id;
  level = level;
}

-- The decision that refuses, or none when the caller is allowed.
unfoldable pub judge_standing :
    RealmStanding → Option Level → Option String → AuthContext → Option Decision
unfolding judge_option judge_level role_has
judge_standing s need perm auth =
    judge_option s.level s.org_role (realm_access s.realm (grant_level s.level)) need perm auth

abbrev pub or_allow : Option Decision → AccessGrant → Decision
or_allow none access = allow access
or_allow (some d) access = d

abbrev pub present_realm : Option RealmInfo → Option RealmInfo
present_realm none = none
present_realm (some realm) = if realm.deleted then none else some realm

unfoldable pub judge_daemon_token : AuthContext → RealmInfo → Option DaemonRule → Decision
judge_daemon_token auth realm none = deny_at 403 daemon_not_allowed (realm_access realm none)
judge_daemon_token auth realm (some rule) =
    if is_id auth.realm_id realm.id
    then allow (realm_access realm (some GrantLevel.daemon))
    else deny_at 404 daemon_other_realm (realm_access realm none)

-- A route that daemons push to has no level; a user token may use it during the transition only.
unfoldable pub judge_user_token :
    AccessStore → AuthContext → RealmInfo → Option Level → Option String → EngineOptions → Decision
unfolding realm_standing judge_standing
judge_user_token store auth realm none perm opts =
    if not opts.allow_pat_daemon_writes
    then deny_at 403 user_token_not_allowed (realm_access realm none)
    else let s = realm_standing store auth realm in
      or_allow (judge_standing s (some operate) none auth)
        (record (realm_access realm (grant_level s.level)) { pat_daemon_write = true })
judge_user_token store auth realm (some need) perm opts =
    let s = realm_standing store auth realm in
    or_allow (judge_standing s (some need) perm auth) (realm_access realm (grant_level s.level))

unfoldable pub judge_present :
    AccessStore
    → AuthContext
    → Option RealmInfo
    → Option Level
    → Option String
    → Option DaemonRule
    → EngineOptions
    → Decision
unfolding judge_daemon_token judge_user_token
judge_present store auth none need perm daemon opts = deny 404 not_found_or_hidden
judge_present store auth (some realm) need perm daemon opts =
    if is_daemon auth
    then judge_daemon_token auth realm daemon
    else judge_user_token store auth realm need perm opts

unfoldable pub judge_realm :
    AccessStore
    → AuthContext
    → Option RealmInfo
    → Option Level
    → Option String
    → Option DaemonRule
    → EngineOptions
    → Decision
unfolding judge_present
judge_realm store auth realm need perm daemon opts =
    judge_present store auth (present_realm realm) need perm daemon opts

judge_member : Option OrgRoleInfo → String → String → Decision
unfolding role_has
judge_member none org_id perm =
    deny_at 404 not_found_or_hidden (record no_access { org_id = some org_id })
judge_member (some role) org_id perm =
    if not (perm == "member") && not (role_has (some role) perm)
    then denied 403 missing_permission (some (record no_access { org_id = some org_id }))
        (some perm)
    else allow (record no_access { org_id = some org_id })

judge_org_id : AccessStore → AuthContext → Option String → String → Decision
unfolding judge_member
judge_org_id store auth none perm = deny 404 not_found_or_hidden
judge_org_id store auth (some org_id) perm =
    if is_daemon auth
    then deny_at 403 daemon_not_allowed (record no_access { org_id = some org_id })
    else if is_site_admin auth
    then allow (record no_access { org_id = some org_id; level = some (of_level Level.admin) })
    else judge_member (store.org_role org_id (user_id auth)) org_id perm

unfoldable pub judge_org : AccessStore → AuthContext → Option String → String → Decision
unfolding judge_org_id
judge_org store auth org_id perm = judge_org_id store auth (truthy org_id) perm
