-- ===== src/RoutePolicy/Policy.antt =====
-- src/auth/route_policy/policy.ts and the types of engine.ts: the vocabulary of policies and what a
-- decision holds. The `handler` note of a policy is shown only, never evaluated, and is left out. A
-- field that may be missing or null is one `Option`; one field or an array of fields is a list.
use cliqhub_core.Prelude.{ℕ, String, Bool, true, false, List, Option}
use cliqhub_core.Auth.{AuthContext}
use cliqhub_core.Auth.Access.{TeamAccess}
use cliqhub_core.Json.{Json}

pub data Level : Type 0 where
  view operate admin : Level

abbrev pub level_rank : Level → ℕ
level_rank view = 1
level_rank operate = 2
level_rank admin = 3

pub data RecordKind : Type 0 where
  realm run hug artifact event custom_event daemon workspace invitation channel rule team :
      RecordKind

pub data Source : Type 0 where
  body query params : Source

-- `body.run_id`: the text before the first dot and the rest.
pub record FieldRef : Type 0 where
  pub where_in : Source
  pub key : String

pub data DaemonRule : Type 0 where
  read write only : DaemonRule

pub data Otherwise : Type 0 where
  none required : Otherwise

pub record RealmNeed : Type 0 where
  pub from : List FieldRef
  pub level : Level
  pub perm : Option String

pub record OrgNeed : Type 0 where
  pub from : List FieldRef
  pub perm : String

pub record RealmPolicy : Type 0 where
  pub from : List FieldRef
  pub level : Option Level
  pub perm : Option String
  pub daemon : Option DaemonRule
  pub daemons : Option (List FieldRef)

pub record RecordPolicy : Type 0 where
  pub kind : RecordKind
  pub from : List FieldRef
  pub level : Option Level
  pub perm : Option String
  pub org_perm : Option String
  pub daemon : Option DaemonRule

pub record ScopePolicy : Type 0 where
  pub realm : Option RealmNeed
  pub org : Option OrgNeed
  pub otherwise : Otherwise
  pub daemon : Option DaemonRule

pub data Policy : Type 0 where
  public : Policy
  bff_only : Policy
  a2a_dispatch : Policy
  signed_in : (daemon : Option DaemonRule) → Policy
  site_admin : (daemon_read : Bool) → Policy
  daemon_self : (token_only : Bool) → Policy
  org : OrgNeed → Policy
  scope : ScopePolicy → Policy
  realm : RealmPolicy → Policy
  on_record : RecordPolicy → Policy
  daemon_realm : Level → Policy
  by_body : (field : FieldRef) (when_present otherwise : Policy) → Policy

pub record OrgRoleInfo : Type 0 where
  pub slug : String
  pub is_system : Bool
  pub permissions : List String

pub record RealmInfo : Type 0 where
  pub id : String
  pub org_id : Option String
  pub owner_user_id : Option String
  pub deleted : Bool

pub record RecordScope : Type 0 where
  pub realm_id : Option String
  pub realm_ids : Option (List String)
  pub org_id : Option String
  pub owner_user_id : Option String
  pub team : Option TeamAccess

pub data RealmRole : Type 0 where
  admin operator member : RealmRole

pub record RequestLike : Type 0 where
  pub method : String
  pub path : String
  pub body : Json
  pub query : Json
  pub params : Json
  pub auth : Option AuthContext

-- What the engine reads of the database, as of one decision.
pub record AccessStore : Type 0 where
  pub realm : String → Option RealmInfo
  pub realm_by_slug : String → String → Option RealmInfo
  pub realm_role : String → String → Option RealmRole
  pub org_role : String → String → Option OrgRoleInfo
  pub org_id_by_slug : String → Option String
  pub record_scope : RecordKind → String → RequestLike → Option RecordScope

pub data DenyReason : Type 0 where
  no_token daemon_not_allowed user_token_not_allowed not_site_admin : DenyReason
  not_found_or_hidden level_too_low missing_permission : DenyReason
  scope_required daemon_other_realm : DenyReason

-- A realm level, or the mark of a daemon token.
pub data GrantLevel : Type 0 where
  of_level : Level → GrantLevel
  daemon : GrantLevel

pub record AccessGrant : Type 0 where
  pub org_id : Option String
  pub realm_id : Option String
  pub level : Option GrantLevel
  pub on_record : Option (RecordKind × String)
  pub pat_daemon_write : Bool

pub data Decision : Type 0 where
  allowed : (access : AccessGrant) (unresolved : Option String) → Decision
  denied :
      (status : ℕ) (reason : DenyReason) (access : Option AccessGrant) (detail : Option String)
      → Decision

pub record EngineOptions : Type 0 where
  pub allow_pat_daemon_writes : Bool

abbrev pub is_allowed : Decision → Bool
is_allowed (allowed a u) = true
is_allowed (denied s r a d) = false
