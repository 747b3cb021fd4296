-- ===== src/Auth.antt =====
-- Who makes a request: the internal context types of src/schemas/auth_types.ts. The profile fields
-- of a user that no modelled code reads (names, email, dates, preferences) are left out, and a field
-- that may be missing or null is one `Option`.
pub mod Access
pub mod Grants
pub mod AssertGrant
pub mod Tests
use cliqhub_core.Prelude.{String, Bool, true, false, List, Option, none, some}

pub data SiteRole : Type 0 where
  user admin : SiteRole

pub record User : Type 0 where
  pub id : String
  pub role : SiteRole

pub record Scope : Type 0 where
  pub id : String
  pub slug : String
  pub owner_id : Option String
  pub org_id : Option String

-- The things that a token can be granted access to, and how much.
pub data GrantEntity : Type 0 where
  users orgs scopes teams drafts tokens realms daemons runs dispatch workspaces : GrantEntity
  agents settings notifications builder hug reports : GrantEntity

-- A stored grant may hold a word that is no level.
pub data AccessLevel : Type 0 where
  read write admin : AccessLevel
  unknown : String → AccessLevel

abbrev pub GrantAccess : Type 0
GrantAccess = GrantEntity → Option (List AccessLevel)

-- `'*'`, or ids, among which the text "*" stands for all too.
pub data Domain : Type 0 where
  star : Domain
  listed : List String → Domain

pub record Domains : Type 0 where
  pub orgs : Option Domain
  pub realms : Option Domain

-- `access` of a stored grant: missing, the legacy text, or a map.
pub data StoredAccess : Type 0 where
  missing : StoredAccess
  word : String → StoredAccess
  map_of : GrantAccess → StoredAccess

-- `TokenPermissionsVo`: what is stored with a token, of the present or the legacy shape.
pub record TokenPermissions : Type 0 where
  pub domains : Option Domains
  pub access : StoredAccess
  pub org_ids : Option (List String)

pub data AuthVia : Type 0 where
  jwt pat daemon_token : AuthVia

pub record AuthContext : Type 0 where
  pub user : Option User
  pub org_ids : List String
  pub member_scopes : List Scope
  -- The primary realm of a daemon token.
  pub realm_id : Option String
  pub auth_via : Option AuthVia
  pub token_permissions : Option TokenPermissions

abbrev pub is_daemon_token : Option AuthVia → Bool
is_daemon_token (some daemon_token) = true
is_daemon_token _ = false

abbrev pub is_admin_role : SiteRole → Bool
is_admin_role admin = true
is_admin_role user = false

abbrev pub has_admin_role : Option User → Bool
has_admin_role none = false
has_admin_role (some u) = is_admin_role u.role
