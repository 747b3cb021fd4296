-- ===== src/Auth/Grants/Subject.antt =====
-- `clamp_grant_to_subject` of grants.ts.
use text.Mathlib.Text.{◌==◌}
use cliqhub_core.Prelude.{
  String, true, false, not, ◌&&◌, ◌≡◌, refl, List, [], ◌∷◌, Option, none, some, filter, includes,
  arith, In, In-filter_iff, includes-In, includes-filter, same, same_refl, Bool-cases, inl, inr,
}
use cliqhub_core.Auth.{GrantEntity, AccessLevel, Domain, star, listed, is_admin_role}
use cliqhub_core.Auth.Grants.{
  TokenGrant, GrantSubject, has_access, domain_allows, domain_allows_org, domain_allows_realm,
  clamp_list, clamp_grant_to_subject,
}

-- An id on a list is the target, where the list does not hold the wildcard.
list_allows-In :
    (ids : List String) (x : String)
    → includes ids "*" ≡ false
    → domain_allows (some (listed ids)) x ≡ true
    → In x ids
unfolding domain_allows includes
list_allows-In [] x h k = cc
list_allows-In (y ∷ ys) x h k = elim (Bool-cases (y == x)) [
  | inl e ↦ inl (same y x e)
  | inr n ↦ inr (list_allows-In ys x (ground arith) (ground arith))
]

kept-no_star :
    (own ids : List String)
    → includes (filter (λ w. not (w == "*") && includes own w) ids) "*" ≡ false
kept-no_star own ids =
    ground (arith, includes-filter (λ w. not (w == "*") && includes own w) ids "*", same_refl "*")

module _ (grant : TokenGrant) (subject : GrantSubject) (x : String)
    (user : is_admin_role subject.role ≡ false) where
  clamped_org :
      domain_allows_org (some (clamp_grant_to_subject grant subject)) x ≡ true
      → domain_allows (some (listed (clamp_list grant.domains.orgs subject.org_ids))) x ≡ true
  unfolding domain_allows_org clamp_grant_to_subject
  clamped_org h = rw user at h

  clamped_realm :
      domain_allows_realm (some (clamp_grant_to_subject grant subject)) x ≡ true
      → domain_allows (some (listed (clamp_list grant.domains.realms subject.realm_ids))) x ≡ true
  unfolding domain_allows_realm clamp_grant_to_subject
  clamped_realm h = rw user at h

clamped_access :
    (grant : TokenGrant) (subject : GrantSubject)
    → is_admin_role subject.role ≡ false
    → (entity : GrantEntity) (need : AccessLevel)
    → has_access (some (clamp_grant_to_subject grant subject)) entity need
      ≡ has_access (some grant) entity need
unfolding has_access clamp_grant_to_subject
clamped_access grant subject user entity need = rw user

-- What the clamp leaves of a domain is part of the subject's own.
clamp_list-allows :
    (wanted : Option Domain) (own : List String) (x : String)
    → includes own "*" ≡ false
    → domain_allows (some (listed (clamp_list wanted own))) x ≡ true
    → In x own
unfolding clamp_list includes
clamp_list-allows none own x h k = absurd (list_allows-In [] x refl k)
clamp_list-allows (some star) own x h k = list_allows-In own x h k
clamp_list-allows (some (listed ids)) own x h k =
    let kept = filter (λ w. not (w == "*") && includes own w) ids in
    let at = list_allows-In kept x (kept-no_star own ids) k in
    let (here, y) = (In-filter_iff (λ w. not (w == "*") && includes own w) x ids).0 at in
    includes-In own x (ground arith)

-- For a subject that is no site admin, and whose own ids are not the wildcard, a clamped grant
-- reaches only the subject's own orgs and realms, whatever was asked for, and keeps its levels.
pub clamp_grant_to_subject-domains :
    (grant : TokenGrant) (subject : GrantSubject) (x : String)
    → is_admin_role subject.role ≡ false
    → includes subject.org_ids "*" ≡ false
    → includes subject.realm_ids "*" ≡ false
    → (domain_allows_org (some (clamp_grant_to_subject grant subject)) x ≡ true
        → In x subject.org_ids)
      × (domain_allows_realm (some (clamp_grant_to_subject grant subject)) x ≡ true
          → In x subject.realm_ids)
      × ((entity : GrantEntity) (need : AccessLevel)
          → has_access (some (clamp_grant_to_subject grant subject)) entity need
            ≡ has_access (some grant) entity need)
clamp_grant_to_subject-domains grant subject x user o r = (
  λ h.
      clamp_list-allows grant.domains.orgs subject.org_ids x o (clamped_org grant subject x user h),
  λ h.
      clamp_list-allows grant.domains.realms subject.realm_ids x r
        (clamped_realm grant subject x user h),
  clamped_access grant subject user,
)
