-- ===== src/RoutePolicy/Rights.antt =====
-- The rights that the comment at the head of engine.ts promises, as relations that do not mention the
-- engine: where a level on a realm comes from, and when an org permission stands in the way.
use cliqhub_core.Prelude.{String, true, ◌≡◌, ◌≢◌, Option, none, some, truthy, includes}
use cliqhub_core.Auth.{AuthContext}
use cliqhub_core.RoutePolicy.Policy.{Level, OrgRoleInfo, RealmInfo, RealmRole, AccessStore}
use cliqhub_core.RoutePolicy.Standing.{is_site_admin, user_id, realm_role_level, org_role_in}

-- The caller's role in the org of the realm, if the realm has an org and the caller is in it.
abbrev pub org_role_at : AccessStore → AuthContext → RealmInfo → Option OrgRoleInfo
org_role_at store auth realm = org_role_in store (truthy realm.org_id) (user_id auth)

-- A reason to hold the level `l` on the realm.
pub data Holds (store : AccessStore) (auth : AuthContext) (realm : RealmInfo) (l : Level)
    : Type 0 where
  as_site_admin : is_site_admin auth ≡ true → l ≡ Level.admin → Holds store auth realm l
  as_org_owner :
      (role : OrgRoleInfo)
      → org_role_at store auth realm ≡ some role
      → role.is_system ≡ true
      → l ≡ Level.admin
      → Holds store auth realm l
  as_org_admin :
      (role : OrgRoleInfo)
      → org_role_at store auth realm ≡ some role
      → role.slug ≡ "admin"
      → l ≡ Level.admin
      → Holds store auth realm l
  as_owner :
      realm.owner_user_id ≡ some (user_id auth)
      → user_id auth ≢ ""
      → l ≡ Level.admin
      → Holds store auth realm l
  as_member :
      (role : RealmRole)
      → store.realm_role realm.id (user_id auth) ≡ some role
      → l ≡ realm_role_level role
      → Holds store auth realm l

-- No org permission stands in the way: none is asked for, the caller is a site admin or a guest of
-- the org, or the caller's org role is the owner's or lists the permission.
pub data Permitted (store : AccessStore) (auth : AuthContext) (realm : RealmInfo)
    (perm : Option String) : Type 0 where
  not_asked : truthy perm ≡ none → Permitted store auth realm perm
  by_site_admin : is_site_admin auth ≡ true → Permitted store auth realm perm
  as_guest : org_role_at store auth realm ≡ none → Permitted store auth realm perm
  by_org_owner :
      (role : OrgRoleInfo)
      → org_role_at store auth realm ≡ some role
      → role.is_system ≡ true
      → Permitted store auth realm perm
  by_org_role :
      (role : OrgRoleInfo) (p : String)
      → org_role_at store auth realm ≡ some role
      → perm ≡ some p
      → includes role.permissions p ≡ true
      → Permitted store auth realm perm
