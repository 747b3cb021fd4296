-- ===== src/Auth/Tests.antt =====
-- Grants and their checks on small inputs.
use cliqhub_core.Prelude.{
  inl, inr, In, String, true, false, ◌&&◌, [], ◌∷◌, none, some, ◌≡◌, ◌≢◌, ◌↔◌, refl, includes,
}
use cliqhub_core.Auth.{
  SiteRole, AuthContext, AuthVia, GrantEntity, AccessLevel, GrantAccess, star, listed,
}
use cliqhub_core.Auth.Grants.{
  grants_level, TokenGrant, GrantSubject, has_access, clamp_grant_to_grant, clamp_grant_to_subject,
  domain_allows_org, domain_allows_realm,
}
use cliqhub_core.Auth.Grants.Clamp.{
  IsClosed, clamp_grant_to_grant-access, clamp_grant_to_grant_complete,
  clamp_grant_to_grant-domains,
}
use cliqhub_core.Auth.Grants.Subject.{clamp_grant_to_subject-domains}
use cliqhub_core.Auth.AssertGrant.{assert_realm_domain, assert_access, assert_admin_access}
use cliqhub_core.Auth.AssertGrant.Confined.{is_ok, assert_realm_domain-own_iff}

abbrev can_write : GrantAccess
can_write entity = some (AccessLevel.read ∷ AccessLevel.write ∷ [])

abbrev wide : TokenGrant
wide = record { domains = record { orgs = some star; realms = some star }; access = can_write }

abbrev narrow : TokenGrant
narrow = record {
  domains = record { orgs = none; realms = some (listed ("r1" ∷ [])) };
  access = λ entity. some (AccessLevel.write ∷ []);
}

abbrev somebody : GrantSubject
somebody = record { role = SiteRole.user; org_ids = "o1" ∷ []; realm_ids = "r1" ∷ [] }

abbrev box : AuthContext
box = record {
  user = some (record { id = "u1"; role = SiteRole.user });
  org_ids = [];
  member_scopes = [];
  realm_id = some "r1";
  auth_via = some AuthVia.daemon_token;
  token_permissions = none;
}

both_write :
    has_access (some (clamp_grant_to_grant wide narrow)) GrantEntity.runs AccessLevel.write ≡ true
unfolding has_access clamp_grant_to_grant
both_write = refl

wide_writes : has_access (some wide) GrantEntity.runs AccessLevel.read ≡ true
unfolding has_access
wide_writes = refl

narrow_writes : has_access (some narrow) GrantEntity.runs AccessLevel.read ≡ true
unfolding has_access
narrow_writes = refl

can_write-IsClosed : IsClosed (AccessLevel.read ∷ AccessLevel.write ∷ [])
unfolding grants_level
can_write-IsClosed AccessLevel.read lv h = inl refl
can_write-IsClosed AccessLevel.write lv h = inr (inl refl)
can_write-IsClosed AccessLevel.admin lv h = cc
can_write-IsClosed (AccessLevel.unknown w) lv h = elim lv [ ]

clamp_grant_to_grant-access_example :
    (has_access (some wide) GrantEntity.runs AccessLevel.write ≡ true)
    × (has_access (some narrow) GrantEntity.runs AccessLevel.write ≡ true)
clamp_grant_to_grant-access_example =
    clamp_grant_to_grant-access wide narrow GrantEntity.runs AccessLevel.write tt both_write

clamp_grant_to_grant_complete_example :
    has_access (some (clamp_grant_to_grant wide narrow)) GrantEntity.runs AccessLevel.read ≡ true
clamp_grant_to_grant_complete_example =
    clamp_grant_to_grant_complete wide narrow GrantEntity.runs AccessLevel.read tt
      can_write-IsClosed wide_writes narrow_writes

clamp_grant_to_grant-domains_example :
    (domain_allows_org (some (clamp_grant_to_grant wide narrow)) "o1"
      ≡ (domain_allows_org (some wide) "o1" && domain_allows_org (some narrow) "o1"))
    × (domain_allows_realm (some (clamp_grant_to_grant wide narrow)) "o1"
        ≡ (domain_allows_realm (some wide) "o1" && domain_allows_realm (some narrow) "o1"))
clamp_grant_to_grant-domains_example = clamp_grant_to_grant-domains wide narrow "o1"

clamp_grant_to_subject-domains_example :
    (domain_allows_org (some (clamp_grant_to_subject wide somebody)) "o1" ≡ true
      → In {A = String} "o1" ("o1" ∷ []))
    × (domain_allows_realm (some (clamp_grant_to_subject wide somebody)) "o1" ≡ true
        → In {A = String} "o1" ("r1" ∷ []))
    × ((entity : GrantEntity) (need : AccessLevel)
        → has_access (some (clamp_grant_to_subject wide somebody)) entity need
          ≡ has_access (some wide) entity need)
clamp_grant_to_subject-domains_example =
    clamp_grant_to_subject-domains wide somebody "o1" refl (unfold includes in refl)
      (unfold includes in refl)

r1-not_star : ◌≢◌ {A = String} "r1" "*"
r1-not_star e = cc

assert_realm_domain-own_iff_example :
    ((is_ok (assert_realm_domain box "r1") ≡ true) ↔ (◌≡◌ {A = String} "r1" "r1"))
    × ((entity : GrantEntity)
        → (is_ok (assert_access box entity AccessLevel.admin) ≡ false)
          × (is_ok (assert_admin_access box entity) ≡ false))
assert_realm_domain-own_iff_example =
    assert_realm_domain-own_iff box {own = "r1"} refl refl refl refl "r1" r1-not_star
