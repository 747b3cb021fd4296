-- ===== src/Auth/Grants/Clamp.antt =====
-- The clamps of grants.ts: a minted grant never exceeds its ceiling or its subject.
use text.Mathlib.Text.{◌==◌}
use cliqhub_core.Prelude.{
  In, ◌≤◌, String, true, false, not, ◌&&◌, ◌≡◌, refl, sym, ap, ◌∙◌, List, [], ◌∷◌, Option, none,
  some, leb, ltb, filter, includes, arith, Bool-cases, inl, inr, le→leb, In-filter_iff, any_intro,
  includes-filter, leb→le,
}
use cliqhub_core.Auth.{GrantEntity, AccessLevel, read, write, admin, unknown, Domain, star, listed}
use cliqhub_core.Auth.Grants.{
  TokenGrant, rank_or, suffices, grants_level, has_access, cap_of, kept_levels, levels_of,
  nonempty_levels, clamp_grant_to_grant, domain_allows, domain_allows_org, domain_allows_realm,
  clamp_domain, is_all, ids_of,
}

abbrev pub IsLevel : AccessLevel → Type 0
IsLevel read = Unit
IsLevel write = Unit
IsLevel admin = Unit
IsLevel (unknown w) = ⊥

-- A level passes only at or below the ceiling's highest level.
suffices-cap :
    (need l : AccessLevel) (ceiling : List AccessLevel)
    → suffices need l ≡ true
    → rank_or 99 l ≤ cap_of ceiling
    → rank_or 0 need ≤ cap_of ceiling
suffices-cap need read ceiling h k = ground arith
suffices-cap need write ceiling h k = ground arith
suffices-cap need admin ceiling h k = ground arith
suffices-cap need (unknown w) ceiling h k = cc

no_zero : (need : AccessLevel) → IsLevel need → ¬ (rank_or 0 need ≤ 0)
no_zero read lv h = omega arith
no_zero write lv h = omega arith
no_zero admin lv h = omega arith
no_zero (unknown w) lv h = lv

suffices-rank :
    (need l : AccessLevel) → IsLevel need → rank_or 0 need ≤ rank_or 0 l → suffices need l ≡ true
suffices-rank need read lv h = ground arith
suffices-rank need write lv h = ground arith
suffices-rank need admin lv h = ground arith
suffices-rank need (unknown w) lv h = absurd (no_zero need lv h)

cap-grants :
    (need : AccessLevel) (ceiling : List AccessLevel)
    → IsLevel need
    → rank_or 0 need ≤ cap_of ceiling
    → grants_level ceiling need ≡ true
unfolding grants_level cap_of
cap-grants need [] lv h = absurd (no_zero need lv h)
cap-grants need (l ∷ ls) lv h = elim (Bool-cases (ltb (cap_of ls) (rank_or 0 l))) [
  | inl t ↦ ground (arith, suffices-rank need l lv)
  | inr f ↦ ground (arith, cap-grants need ls lv)
]

kept-grants :
    (need : AccessLevel) (wanted ceiling : List AccessLevel)
    → grants_level (kept_levels wanted ceiling) need ≡ true
    → (grants_level wanted need ≡ true) × (rank_or 0 need ≤ cap_of ceiling)
unfolding grants_level kept_levels
kept-grants need [] ceiling h = cc
kept-grants need (l ∷ ls) ceiling h = elim (Bool-cases (leb (rank_or 99 l) (cap_of ceiling))) [
  | inl t ↦ elim (Bool-cases (suffices need l)) [
    | inl y ↦ (rw y refl, suffices-cap need l ceiling y (leb→le _ _ t))
    | inr n ↦ ground (arith, kept-grants need ls ceiling)
  ]
  | inr f ↦ ground (arith, kept-grants need ls ceiling)
]

grants_level-nonempty :
    (levels : List AccessLevel) (need : AccessLevel)
    → grants_level (levels_of (nonempty_levels levels)) need ≡ grants_level levels need
grants_level-nonempty [] need = refl
grants_level-nonempty (l ∷ ls) need = refl

-- A clamped grant has an access only where the wanted grant and the ceiling both have it: a
-- restricted token cannot mint a wider one, for any entity and any level.
pub clamp_grant_to_grant-access :
    (grant ceiling : TokenGrant) (entity : GrantEntity) (need : AccessLevel)
    → IsLevel need
    → has_access (some (clamp_grant_to_grant grant ceiling)) entity need ≡ true
    → (has_access (some grant) entity need ≡ true) × (has_access (some ceiling) entity need ≡ true)
unfolding has_access clamp_grant_to_grant
clamp_grant_to_grant-access grant ceiling entity need lv h =
    let wanted = levels_of (grant.access entity) in
    let cap = levels_of (ceiling.access entity) in
    let (a, b) =
      kept-grants need wanted cap (sym (grants_level-nonempty (kept_levels wanted cap) need) ∙ h) in
    (a, cap-grants need cap lv b)

rank-same : (need : AccessLevel) → IsLevel need → rank_or 99 need ≡ rank_or 0 need
rank-same read lv = refl
rank-same write lv = refl
rank-same admin lv = refl
rank-same (unknown w) lv = absurd lv

suffices-le : (need l : AccessLevel) → suffices need l ≡ true → rank_or 0 need ≤ rank_or 0 l
suffices-le need l h = ground arith

grants-cap :
    (need : AccessLevel) (ceiling : List AccessLevel)
    → grants_level ceiling need ≡ true
    → rank_or 0 need ≤ cap_of ceiling
unfolding grants_level cap_of
grants-cap need [] h = cc
grants-cap need (l ∷ ls) h = elim (Bool-cases (suffices need l)) [
  | inl y ↦ ground (arith, suffices-le need l y)
  | inr n ↦ ground (arith, grants-cap need ls)
]

-- A list of levels that, with a level, holds the lower ones.
abbrev pub IsClosed : List AccessLevel → Type 0
IsClosed levels =
    (need : AccessLevel) → IsLevel need → grants_level levels need ≡ true → In need levels

-- The clamp takes nothing else away from a grant that lists, with a level, the lower ones: it has an
-- access wherever the grant and the ceiling both have it.
pub clamp_grant_to_grant_complete :
    (grant ceiling : TokenGrant) (entity : GrantEntity) (need : AccessLevel)
    → IsLevel need
    → IsClosed (levels_of (grant.access entity))
    → has_access (some grant) entity need ≡ true
    → has_access (some ceiling) entity need ≡ true
    → has_access (some (clamp_grant_to_grant grant ceiling)) entity need ≡ true
unfolding has_access clamp_grant_to_grant kept_levels grants_level
clamp_grant_to_grant_complete grant ceiling entity need lv closed h k =
    let wanted = levels_of (grant.access entity) in
    let cap = levels_of (ceiling.access entity) in
    let at =
      (In-filter_iff (λ l. leb (rank_or 99 l) (cap_of cap)) need wanted).1
        (closed need lv h, le→leb _ _ (omega (arith, rank-same need lv, grants-cap need cap k))) in
    grants_level-nonempty (kept_levels wanted cap) need
    ∙ any_intro (suffices need) need (kept_levels wanted cap) at
        (suffices-rank need need lv (omega arith))

list_allows-includes :
    (xs : List String) (x : String)
    → includes xs "*" ≡ false
    → domain_allows (some (listed xs)) x ≡ includes xs x
unfolding domain_allows includes
list_allows-includes [] x h = refl
list_allows-includes (y ∷ ys) x h = ground (arith, list_allows-includes ys x)

all-allows : (d : Option Domain) (x : String) → is_all d ≡ true → domain_allows d x ≡ true
unfolding domain_allows includes
all-allows none x h = cc
all-allows (some star) x h = refl
all-allows (some (listed [])) x h = cc
all-allows (some (listed (y ∷ ys))) x h = ground (arith, all-allows (some (listed ys)) x)

no_star : (xs : List String) → includes xs "*" ≡ false → filter (λ x. not (x == "*")) xs ≡ xs
unfolding includes
no_star [] h = refl
no_star (x ∷ xs) h = ground (arith, no_star xs)

some-allows :
    (d : Option Domain) (x : String) → is_all d ≡ false → domain_allows d x ≡ includes (ids_of d) x
some-allows none x h = unfold domain_allows includes in refl
some-allows (some star) x h = cc
some-allows (some (listed xs)) x h = list_allows-includes xs x h

ids_of-no_star : (d : Option Domain) → is_all d ≡ false → includes (ids_of d) "*" ≡ false
unfolding includes
ids_of-no_star none h = refl
ids_of-no_star (some star) h = refl
ids_of-no_star (some (listed xs)) h = h

module _ (wanted allowed : Option Domain) (n : is_all allowed ≡ false) where
  clamp-all : is_all wanted ≡ true → clamp_domain wanted allowed ≡ some (listed (ids_of allowed))
  unfolding clamp_domain
  clamp-all w = rw (n, w, no_star (ids_of allowed) (ids_of-no_star allowed n))

  clamp-some :
      is_all wanted ≡ false
      → clamp_domain wanted allowed
        ≡ some (listed (filter (includes (ids_of allowed)) (ids_of wanted)))
  unfolding clamp_domain
  clamp-some w = rw (n, w, no_star (ids_of allowed) (ids_of-no_star allowed n))

-- The clamp of a domain is the intersection of the two, for every target.
pub clamp_domain-allows :
    (wanted allowed : Option Domain) (x : String)
    → domain_allows (clamp_domain wanted allowed) x
      ≡ (domain_allows wanted x && domain_allows allowed x)
unfolding clamp_domain
clamp_domain-allows wanted allowed x = elim (Bool-cases (is_all allowed)) [
  | inl a ↦ rw a (ground (arith, all-allows allowed x a))
  | inr n ↦ elim (Bool-cases (is_all wanted)) [
    | inl w ↦
        ap (λ d. domain_allows d x) (clamp-all wanted allowed n w)
        ∙ list_allows-includes (ids_of allowed) x (ids_of-no_star allowed n)
        ∙ ground (arith, all-allows wanted x w, some-allows allowed x n)
    | inr w ↦
        let meet = filter (includes (ids_of allowed)) (ids_of wanted) in
        ap (λ d. domain_allows d x) (clamp-some wanted allowed n w)
        ∙ list_allows-includes meet x (
            ground (
              arith,
              includes-filter (includes (ids_of allowed)) (ids_of wanted) "*",
              ids_of-no_star allowed n,
              ids_of-no_star wanted w,
            ))
        ∙ includes-filter (includes (ids_of allowed)) (ids_of wanted) x
        ∙ ground (arith, some-allows wanted x w, some-allows allowed x n)
  ]
]

-- So a minted grant reaches an org or a realm exactly when the wanted grant and the ceiling both do.
pub clamp_grant_to_grant-domains :
    (grant ceiling : TokenGrant) (x : String)
    → (domain_allows_org (some (clamp_grant_to_grant grant ceiling)) x
        ≡ (domain_allows_org (some grant) x && domain_allows_org (some ceiling) x))
      × (domain_allows_realm (some (clamp_grant_to_grant grant ceiling)) x
          ≡ (domain_allows_realm (some grant) x && domain_allows_realm (some ceiling) x))
unfolding domain_allows_org domain_allows_realm clamp_grant_to_grant
clamp_grant_to_grant-domains grant ceiling x = (
  clamp_domain-allows grant.domains.orgs ceiling.domains.orgs x,
  clamp_domain-allows grant.domains.realms ceiling.domains.realms x,
)
