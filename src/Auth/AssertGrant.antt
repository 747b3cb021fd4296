-- ===== src/Auth/AssertGrant.antt =====
-- src/auth/assert_grant.ts: the grant that a request runs with, and the checks of it. An `ApiError`
-- is its code and its status; the message is left out.
pub mod Confined
use text.Mathlib.Text.{◌==◌}
use cliqhub_core.Prelude.{
  ℕ, String, Bool, true, false, not, ◌&&◌, List, [], ◌∷◌, Option, none, some, if◌then◌else◌, ◌≡◌,
}
use cliqhub_core.Auth.{
  User, AuthContext, is_admin_role, is_daemon_token, GrantEntity, users, AccessLevel, Domains,
  Domain, star, listed, StoredAccess, missing, word, map_of, TokenPermissions,
}
use cliqhub_core.Auth.Grants.{
  TokenGrant, GrantSubject, default_daemon_grant, default_grant_for_subject, domain_allows_realm,
  has_access, normalize_grant,
}

pub data ApiCode : Type 0 where
  unauthorized forbidden : ApiCode

pub data Checked {ℓ} (A : Type ℓ) : Type ℓ where
  ok : A → Checked A
  api_error : (code : ApiCode) (status : ℕ) → Checked A

infixl 5 ◌>>=◌
abbrev pub ◌>>=◌ {ℓ κ} : {A : Type ℓ} {B : Type κ} → Checked A → (A → Checked B) → Checked B
ok a >>= f = f a
api_error code status >>= f = api_error code status

-- `Object.keys(permissions).length === 0`: no field of the stored permissions is there.
abbrev no_access_field : StoredAccess → Bool
no_access_field missing = true
no_access_field _ = false

abbrev is_absent {ℓ} : {A : Type ℓ} → Option A → Bool
is_absent none = true
is_absent (some a) = false

abbrev pub is_blank : TokenPermissions → Bool
is_blank t = is_absent t.domains && no_access_field t.access && is_absent t.org_ids

abbrev first_named : List String → Option String
first_named [] = none
first_named (r ∷ rs) = if r == "*" then first_named rs else some r

abbrev first_realm : Option Domain → Option String
first_realm none = none
first_realm (some star) = none
first_realm (some (listed ids)) = first_named ids

abbrev realm_of_domains : Option Domains → Option String
realm_of_domains none = none
realm_of_domains (some d) = first_realm d.realms

pub primary_realm_from_permissions : Option TokenPermissions → Option String
primary_realm_from_permissions none = none
primary_realm_from_permissions (some t) = realm_of_domains t.domains

abbrev or_hint : Option String → Option String → Option String
or_hint (some r) h = some r
or_hint none h = h

abbrev hint_list : Option String → List String
hint_list none = []
hint_list (some r) = r ∷ []

-- The stored permissions over the fallback, or the fallback alone where nothing is stored.
abbrev stored_or : Option TokenPermissions → TokenGrant → TokenGrant
stored_or none fallback = fallback
stored_or (some t) fallback = if is_blank t then fallback else normalize_grant (some t) fallback

effective_grant : AuthContext → User → TokenGrant
unfolding primary_realm_from_permissions default_daemon_grant default_grant_for_subject
    normalize_grant
effective_grant auth u =
    if is_daemon_token auth.auth_via
    then stored_or auth.token_permissions (
        default_daemon_grant
          (hint_list
            (or_hint auth.realm_id (primary_realm_from_permissions auth.token_permissions)))
          [])
    else stored_or auth.token_permissions (
        default_grant_for_subject
          (record { role = u.role; org_ids = auth.org_ids; realm_ids = [] }))

effective_for : AuthContext → Option User → Checked TokenGrant
unfolding effective_grant
effective_for auth none = api_error unauthorized 401
effective_for auth (some u) = ok (effective_grant auth u)

unfoldable pub resolve_effective_grant : AuthContext → Checked TokenGrant
unfolding effective_for
resolve_effective_grant auth = effective_for auth auth.user

unfoldable pub assert_realm_domain : AuthContext → String → Checked TokenGrant
unfolding resolve_effective_grant domain_allows_realm
assert_realm_domain auth realm_id = do
  grant ← resolve_effective_grant auth
  if domain_allows_realm (some grant) realm_id then ok grant else api_error forbidden 403

unfoldable pub assert_access : AuthContext → GrantEntity → AccessLevel → Checked TokenGrant
unfolding resolve_effective_grant has_access
assert_access auth entity need = do
  grant ← resolve_effective_grant auth
  if has_access (some grant) entity need then ok grant else api_error forbidden 403

admin_for : AuthContext → Option User → GrantEntity → Checked TokenGrant
unfolding resolve_effective_grant has_access
admin_for auth none entity = api_error unauthorized 401
admin_for auth (some u) entity = if is_admin_role u.role then resolve_effective_grant auth else do
  grant ← resolve_effective_grant auth
  if has_access (some grant) entity AccessLevel.admin then ok grant else api_error forbidden 403

unfoldable pub assert_admin_access : AuthContext → GrantEntity → Checked TokenGrant
unfolding admin_for
assert_admin_access auth entity = admin_for auth auth.user entity
