-- ===== src/RoutePolicy/Realm.antt =====
-- One realm: `judge_realm` allows a user token exactly where the rights of `Rights` are there.
use cliqhub_core.Prelude.{
  String, true, false, ◌≡◌, ◌↔◌, refl, sym, ◌∙◌, Option, none, some, arith, is_none, is_none_iff,
}
use cliqhub_core.Auth.{User, AuthContext}
use cliqhub_core.RoutePolicy.Policy.{
  Level, RealmInfo, RealmPolicy, Policy, RequestLike, AccessStore, DaemonRule, EngineOptions,
  is_allowed,
}
use cliqhub_core.RoutePolicy.Standing.{is_daemon, realm_standing, judge_standing, judge_realm}
use cliqhub_core.RoutePolicy.Fields.{FoundField, first_field}
use cliqhub_core.RoutePolicy.Engine.{resolve_realm}
use cliqhub_core.RoutePolicy.Decide.{decide}
use cliqhub_core.RoutePolicy.Levels.{Granted, standing-Granted, Granted-standing}

module _ (store : AccessStore) (auth : AuthContext) (need : Level) (perm : Option String)
    (rule : Option DaemonRule) (opts : EngineOptions) (is_user : is_daemon auth ≡ false) where
  judge_realm-user :
      (realm : RealmInfo)
      → realm.deleted ≡ false
      → is_allowed (judge_realm store auth (some realm) (some need) perm rule opts)
        ≡ is_none (judge_standing (realm_standing store auth realm) (some need) perm auth)
  unfolding judge_realm judge_standing
  judge_realm-user realm live = ground arith

  judge_realm-present :
      (found : Option RealmInfo)
      → is_allowed (judge_realm store auth found (some need) perm rule opts) ≡ true
      → (realm : RealmInfo) × (found ≡ some realm) × (realm.deleted ≡ false)
  unfolding judge_realm
  judge_realm-present none h = cc
  judge_realm-present (some realm) h = (realm, refl, ground arith)

  -- A user token with a level to meet is allowed exactly on a realm that is there, is not deleted,
  -- and on which the caller has been granted that level.
  pub judge_realm-allowed_iff :
      (found : Option RealmInfo)
      → (is_allowed (judge_realm store auth found (some need) perm rule opts) ≡ true) ↔ (
          (realm : RealmInfo) × (found ≡ some realm)
          × (realm.deleted ≡ false)
          × Granted store auth realm need perm)
  judge_realm-allowed_iff found = (
    λ h.
        let (realm, e, live) = judge_realm-present found h in
        (
          realm,
          e,
          live,
          standing-Granted store auth realm need perm
              ((is_none_iff _).0 (sym (judge_realm-user realm live) ∙ rw e at h)),
        ),
    λ (realm, e, live, granted). rw e (
        judge_realm-user realm live
        ∙ (is_none_iff _).1 (Granted-standing store auth realm need perm granted)),
  )

decide-realm_named :
    (p : RealmPolicy) (req : RequestLike) (store : AccessStore) (opts : EngineOptions)
    {auth : AuthContext} {u : User} {f : FoundField}
    → req.auth ≡ some auth
    → auth.user ≡ some u
    → is_daemon auth ≡ false
    → first_field req p.from ≡ some f
    → decide (Policy.realm p) req store opts
      ≡ judge_realm store auth (resolve_realm store req f.ref f.value) p.level p.perm p.daemon opts
unfolding decide
decide-realm_named p req store opts a b c d = rw (a, b, c, d)

-- A user token on a realm route that names its realm, and whose policy has a level, is allowed exactly when
-- that realm is there, is not deleted, and grants the caller the policy's level and permission: for a site admin, an owner or
-- admin of the realm's org, the realm's owner, or a member whose role is high enough.
pub decide-realm_iff :
    (p : RealmPolicy) (req : RequestLike) (store : AccessStore) (opts : EngineOptions)
    {auth : AuthContext} {u : User} {f : FoundField} {need : Level}
    → req.auth ≡ some auth
    → auth.user ≡ some u
    → is_daemon auth ≡ false
    → first_field req p.from ≡ some f
    → p.level ≡ some need
    → (is_allowed (decide (Policy.realm p) req store opts) ≡ true) ↔ (
        (realm : RealmInfo) × (resolve_realm store req f.ref f.value ≡ some realm)
        × (realm.deleted ≡ false)
        × Granted store auth realm need p.perm)
decide-realm_iff p req store opts {auth} {f} {need} a b c d e =
    rw (decide-realm_named p req store opts a b c d) (
      rw e (
        judge_realm-allowed_iff store auth need p.perm p.daemon opts c
          (resolve_realm store req f.ref f.value)))
