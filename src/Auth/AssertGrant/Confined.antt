-- ===== src/Auth/AssertGrant/Confined.antt =====
-- A daemon credential with nothing stored is confined to its own realm.
use cliqhub_core.Prelude.{
  String, Bool, true, false, ◌||◌, ◌≡◌, ◌≢◌, ◌↔◌, refl, sym, ◌∙◌, [], ◌∷◌, none, some, arith,
  eq_iff,
}
use cliqhub_core.Auth.{
  User, AuthContext, is_admin_role, is_daemon_token, GrantEntity, AccessLevel, AccessLevel,
}
use cliqhub_core.Auth.Grants.{default_daemon_grant, domain_allows_realm, has_access}
use cliqhub_core.Auth.AssertGrant.{
  Checked, ok, api_error, resolve_effective_grant, assert_realm_domain, assert_access,
  assert_admin_access,
}

abbrev pub is_ok {ℓ} : {A : Type ℓ} → Checked A → Bool
is_ok (ok a) = true
is_ok (api_error c s) = false

own_domain :
    {own : String} (r : String)
    → own ≢ "*"
    → domain_allows_realm (some (default_daemon_grant (own ∷ []) [])) r ≡ true
    → r ≡ own
unfolding domain_allows_realm default_daemon_grant
own_domain {own} r n h = ground (arith, eq_iff own r, eq_iff own "*")

own_domain_self :
    (own : String) → domain_allows_realm (some (default_daemon_grant (own ∷ []) [])) own ≡ true
unfolding domain_allows_realm default_daemon_grant
own_domain_self own = ground (arith, eq_iff own own)

daemon-no_admin :
    (own : String) (entity : GrantEntity)
    → has_access (some (default_daemon_grant (own ∷ []) [])) entity AccessLevel.admin ≡ false
unfolding has_access default_daemon_grant
daemon-no_admin own GrantEntity.users = refl
daemon-no_admin own _ = refl

or_false : (b : Bool) → (b || false) ≡ b
or_false true = refl
or_false false = refl

module _ (auth : AuthContext) {u : User} {own : String} (named : auth.user ≡ some u)
    (by_daemon : is_daemon_token auth.auth_via ≡ true) (bare : auth.token_permissions ≡ none)
    (home : auth.realm_id ≡ some own) where
  daemon_grant_lem : resolve_effective_grant auth ≡ ok (default_daemon_grant (own ∷ []) [])
  unfolding resolve_effective_grant
  daemon_grant_lem = ground arith

  realm_check :
      (r : String)
      → is_ok (assert_realm_domain auth r)
        ≡ domain_allows_realm (some (default_daemon_grant (own ∷ []) [])) r
  unfolding assert_realm_domain
  realm_check r = ground (arith, daemon_grant_lem)

  access_check :
      (entity : GrantEntity)
      → is_ok (assert_access auth entity AccessLevel.admin)
        ≡ has_access (some (default_daemon_grant (own ∷ []) [])) entity AccessLevel.admin
  unfolding assert_access
  access_check entity = ground (arith, daemon_grant_lem)

  -- The role comes before the grant, also for a daemon token.
  admin_check :
      (entity : GrantEntity)
      → is_ok (assert_admin_access auth entity) ≡ (
          is_admin_role u.role
          || has_access (some (default_daemon_grant (own ∷ []) [])) entity AccessLevel.admin)
  unfolding assert_admin_access
  admin_check entity = ground (arith, daemon_grant_lem)

  -- A daemon token with no stored permissions, whose own realm is not named `*`, passes the realm check
  -- exactly for that realm; it passes `assert_access` for the level admin of no entity, and
  -- `assert_admin_access`, for any entity, exactly where the role of its user is an admin's.
  pub assert_realm_domain-own_iff :
      (r : String)
      → own ≢ "*"
      → ((is_ok (assert_realm_domain auth r) ≡ true) ↔ (r ≡ own))
        × ((entity : GrantEntity)
            → (is_ok (assert_access auth entity AccessLevel.admin) ≡ false)
              × (is_ok (assert_admin_access auth entity) ≡ is_admin_role u.role))
  assert_realm_domain-own_iff r n = (
    (
      λ h. own_domain r n (sym (realm_check r) ∙ h),
      λ e. realm_check r ∙ rw e (own_domain_self own),
    ),
    λ entity. (
      access_check entity ∙ daemon-no_admin own entity,
      admin_check entity ∙ rw (daemon-no_admin own entity) (or_false (is_admin_role u.role)),
    ),
  )
