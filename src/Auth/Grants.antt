-- ===== src/Auth/Grants.antt =====
-- src/auth/grants.ts: what a token may do (entities with levels) and where (domains), its defaults,
-- the reading of stored grants, and the two clamps of a minted grant.
pub mod Clamp
pub mod Subject
use text.Mathlib.Text.{◌==◌}
use cliqhub_core.Prelude.{
  ℕ, ◌≤◌, String, Bool, true, false, not, ◌&&◌, ◌||◌, List, [], ◌∷◌, Option, none, some,
  if◌then◌else◌, leb, ltb, eqb, any, filter, includes, is_empty,
}
use cliqhub_core.Auth.{
  GrantEntity, users, orgs, scopes, teams, drafts, tokens, realms, daemons, runs, dispatch,
  workspaces, agents, settings, notifications, builder, hug, reports, AccessLevel, read, write,
  admin, unknown, GrantAccess, Domain, star, listed, Domains, missing, word, map_of, StoredAccess,
  TokenPermissions, SiteRole, is_admin_role,
}

pub record TokenGrant : Type 0 where
  pub domains : Domains
  pub access : GrantAccess

-- `LEVEL_RANK`; a word that is no level has none.
abbrev pub level_rank : AccessLevel → Option ℕ
level_rank read = some 1
level_rank write = some 2
level_rank admin = some 3
level_rank (unknown w) = none

abbrev pub rank_or : ℕ → AccessLevel → ℕ
rank_or d read = 1
rank_or d write = 2
rank_or d admin = 3
rank_or d (unknown w) = d

abbrev grant_entities : List GrantEntity
grant_entities =
    users ∷ orgs ∷ scopes ∷ teams ∷ drafts ∷ tokens ∷ realms ∷ daemons ∷ runs ∷ dispatch
    ∷ workspaces ∷ agents ∷ settings ∷ notifications ∷ builder ∷ hug ∷ reports ∷ []

abbrev member_entities : List GrantEntity
member_entities =
    teams ∷ drafts ∷ runs ∷ dispatch ∷ workspaces ∷ agents ∷ settings ∷ notifications ∷ builder
    ∷ hug ∷ tokens ∷ realms ∷ daemons ∷ orgs ∷ scopes ∷ []

abbrev index_of : GrantEntity → ℕ
index_of users = 0
index_of orgs = 1
index_of scopes = 2
index_of teams = 3
index_of drafts = 4
index_of tokens = 5
index_of realms = 6
index_of daemons = 7
index_of runs = 8
index_of dispatch = 9
index_of workspaces = 10
index_of agents = 11
index_of settings = 12
index_of notifications = 13
index_of builder = 14
index_of hug = 15
index_of reports = 16

-- `access[entity] = levels`.
unfoldable pub set_access : GrantAccess → GrantEntity → List AccessLevel → GrantAccess
set_access access entity levels e =
    if eqb (index_of entity) (index_of e) then some levels else access e

unfoldable pub set_each : GrantAccess → List GrantEntity → List AccessLevel → GrantAccess
unfolding set_access
set_each access [] levels = access
set_each access (entity ∷ es) levels = set_each (set_access access entity levels) es levels

abbrev pub empty_access : GrantAccess
empty_access e = none

unfoldable pub all_admin_access : GrantAccess
unfolding set_each
all_admin_access = set_each empty_access grant_entities (read ∷ write ∷ admin ∷ [])

unfoldable pub member_access : GrantAccess
unfolding set_each
member_access =
    set_access
      (set_each (set_access empty_access users (read ∷ [])) member_entities (read ∷ write ∷ []))
      reports (read ∷ [])

pub record GrantSubject : Type 0 where
  pub role : SiteRole
  pub org_ids : List String
  pub realm_ids : List String

unfoldable pub default_grant_for_subject : GrantSubject → TokenGrant
unfolding all_admin_access member_access
default_grant_for_subject subject =
    if is_admin_role subject.role
    then record {
      domains = record { orgs = some star; realms = some star };
      access = all_admin_access;
    }
    else record {
      domains = record {
        orgs = some (listed subject.org_ids);
        realms = some (listed subject.realm_ids);
      };
      access = member_access;
    }

abbrev nonempty_domain : List String → Option Domain
nonempty_domain [] = none
nonempty_domain (id ∷ ids) = some (listed (id ∷ ids))

unfoldable pub default_daemon_grant : List String → List String → TokenGrant
unfolding set_access
default_daemon_grant realm_ids org_ids = record {
  domains = record { orgs = nonempty_domain org_ids; realms = some (listed realm_ids) };
  access =
      set_access (set_access (set_access empty_access daemons (write ∷ [])) dispatch (write ∷ []))
        runs (read ∷ write ∷ []);
}

abbrev is_map : StoredAccess → Bool
is_map (map_of a) = true
is_map _ = false

abbrev is_text : StoredAccess → Bool
is_text (word t) = true
is_text _ = false

abbrev is_some {ℓ} : {A : Type ℓ} → Option A → Bool
is_some none = false
is_some (some a) = true

abbrev has_new_shape : TokenPermissions → Bool
has_new_shape raw = is_some raw.domains || is_map raw.access

abbrev is_legacy : TokenPermissions → Bool
is_legacy raw = not (has_new_shape raw) && (is_some raw.org_ids || is_text raw.access)

-- `fallback === '*' ? '*' : [...(fallback ?? [])]`.
abbrev copy_domain : Option Domain → Domain
copy_domain none = listed []
copy_domain (some d) = d

legacy_orgs : Option (List String) → Option Domain → Domain
legacy_orgs none fallback = copy_domain fallback
legacy_orgs (some ids) fallback = listed (filter (λ id. not (is_empty id)) ids)

legacy_access : StoredAccess → GrantAccess → GrantAccess
unfolding all_admin_access
legacy_access (word t) fallback =
    if t == "full" || t == "admin" || t == "*" then all_admin_access else fallback
legacy_access _ fallback = fallback

abbrev domain_in : (Domains → Option Domain) → Option Domains → Option Domain
domain_in part none = none
domain_in part (some d) = part d

-- `stored ?? fallback ?? []`.
abbrev domain_or : Option Domain → Option Domain → Option Domain
domain_or (some d) fallback = some d
domain_or none (some d) = some d
domain_or none none = some (listed [])

abbrev levels_or : Option (List AccessLevel) → Option (List AccessLevel) → Option (List AccessLevel)
levels_or none fallback = fallback
levels_or (some levels) fallback = some levels

-- `{ ...fallback, ...stored }`; the characters of a text are no entities.
merge_access : StoredAccess → GrantAccess → GrantAccess
merge_access (map_of stored) fallback e = levels_or (stored e) (fallback e)
merge_access _ fallback e = fallback e

normalize_stored : TokenPermissions → TokenGrant → TokenGrant
unfolding legacy_orgs legacy_access merge_access
normalize_stored raw fallback =
    if is_legacy raw
    then record {
      domains = record {
        orgs = some (legacy_orgs raw.org_ids fallback.domains.orgs);
        realms = fallback.domains.realms;
      };
      access = legacy_access raw.access fallback.access;
    }
    else record {
      domains = record {
        orgs = domain_or (domain_in (λ d. d.orgs) raw.domains) fallback.domains.orgs;
        realms = domain_or (domain_in (λ d. d.realms) raw.domains) fallback.domains.realms;
      };
      access = merge_access raw.access fallback.access;
    }

unfoldable pub normalize_grant : Option TokenPermissions → TokenGrant → TokenGrant
unfolding normalize_stored
normalize_grant none fallback = fallback
normalize_grant (some raw) fallback = normalize_stored raw fallback

abbrev pub levels_of : Option (List AccessLevel) → List AccessLevel
levels_of none = []
levels_of (some levels) = levels

abbrev reaches : ℕ → Option ℕ → Bool
reaches need none = false
reaches need (some have) = leb need have

-- `need` is one of the three levels.
abbrev pub suffices : AccessLevel → AccessLevel → Bool
suffices need level = reaches (rank_or 0 need) (level_rank level)

unfoldable pub grants_level : List AccessLevel → AccessLevel → Bool
grants_level levels need = any (suffices need) levels

unfoldable pub has_access : Option TokenGrant → GrantEntity → AccessLevel → Bool
unfolding grants_level
has_access none entity need = false
has_access (some grant) entity need = grants_level (levels_of (grant.access entity)) need

unfoldable pub domain_allows : Option Domain → String → Bool
domain_allows none target = false
domain_allows (some star) target = true
domain_allows (some (listed ids)) target = any (λ g. g == "*" || g == target) ids

unfoldable pub domain_allows_org : Option TokenGrant → String → Bool
unfolding domain_allows
domain_allows_org none org_id = false
domain_allows_org (some grant) org_id = domain_allows grant.domains.orgs org_id

unfoldable pub domain_allows_realm : Option TokenGrant → String → Bool
unfolding domain_allows
domain_allows_realm none realm_id = false
domain_allows_realm (some grant) realm_id = domain_allows grant.domains.realms realm_id

unfoldable pub clamp_list : Option Domain → List String → List String
clamp_list none allowed = []
clamp_list (some star) allowed = allowed
clamp_list (some (listed ids)) allowed = filter (λ w. not (w == "*") && includes allowed w) ids

unfoldable pub clamp_grant_to_subject : TokenGrant → GrantSubject → TokenGrant
unfolding clamp_list
clamp_grant_to_subject grant subject = if is_admin_role subject.role then grant else record {
  domains = record {
    orgs = some (listed (clamp_list grant.domains.orgs subject.org_ids));
    realms = some (listed (clamp_list grant.domains.realms subject.realm_ids));
  };
  access = grant.access;
}

-- `'*'`, or a list that holds "*".
abbrev is_all : Option Domain → Bool
is_all none = false
is_all (some star) = true
is_all (some (listed ids)) = includes ids "*"

abbrev ids_of : Option Domain → List String
ids_of none = []
ids_of (some star) = []
ids_of (some (listed ids)) = ids

unfoldable pub clamp_domain : Option Domain → Option Domain → Option Domain
clamp_domain wanted allowed =
    if is_all allowed
    then wanted
    else let allowed_list = filter (λ x. not (x == "*")) (ids_of allowed) in
      if is_all wanted
      then some (listed allowed_list)
      else some (listed (filter (includes allowed_list) (ids_of wanted)))

unfoldable pub cap_of : List AccessLevel → ℕ
cap_of [] = 0
cap_of (l ∷ ls) = let m = cap_of ls in if ltb m (rank_or 0 l) then rank_or 0 l else m

unfoldable pub kept_levels : List AccessLevel → List AccessLevel → List AccessLevel
unfolding cap_of
kept_levels wanted ceiling = filter (λ l. leb (rank_or 99 l) (cap_of ceiling)) wanted

abbrev nonempty_levels : List AccessLevel → Option (List AccessLevel)
nonempty_levels [] = none
nonempty_levels (l ∷ ls) = some (l ∷ ls)

unfoldable pub clamp_grant_to_grant : TokenGrant → TokenGrant → TokenGrant
unfolding clamp_domain kept_levels
clamp_grant_to_grant grant ceiling = record {
  domains = record {
    orgs = clamp_domain grant.domains.orgs ceiling.domains.orgs;
    realms = clamp_domain grant.domains.realms ceiling.domains.realms;
  };
  access = λ e.
      nonempty_levels (kept_levels (levels_of (grant.access e)) (levels_of (ceiling.access e)));
}
