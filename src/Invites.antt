-- ===== src/Invites.antt =====
-- src/services/invite_rules.ts, and the reminders of src/services/invite_sweep.service.ts.
pub mod Sort
pub mod Reminders
pub mod Sweep
pub mod Once
pub mod Tests
use cliqhub_core.Prelude.{ℕ, String, Bool, true, false, Option, leb, if◌then◌else◌}

pub data InviteStatus : Type 0 where
  pending accepted declined revoked expired : InviteStatus

pub data InviteTargetType : Type 0 where
  org realm : InviteTargetType

pub data InviteRole : Type 0 where
  owner admin operator member : InviteRole

pub data InviteKind : Type 0 where
  owner_kind org_kind realm_kind : InviteKind

-- What the modelled code reads of an invite of either table.
pub record Invite : Type 0 where
  pub id : String
  pub org_id : String
  pub target : InviteTargetType
  pub role : InviteRole
  pub status : InviteStatus
  pub expires_at : ℕ
  pub reminders_sent : ℕ

-- Whether `assert_role_for_target` lets the role pass.
abbrev pub assert_role_for_target : InviteTargetType → InviteRole → Bool
assert_role_for_target realm owner = false
assert_role_for_target org operator = false
assert_role_for_target realm admin = true
assert_role_for_target realm operator = true
assert_role_for_target realm member = true
assert_role_for_target org owner = true
assert_role_for_target org admin = true
assert_role_for_target org member = true

abbrev of_role : InviteRole → InviteKind
of_role owner = owner_kind
of_role admin = org_kind
of_role operator = org_kind
of_role member = org_kind

abbrev pub invite_kind : InviteTargetType → InviteRole → InviteKind
invite_kind realm role = realm_kind
invite_kind org role = of_role role

abbrev pub org_member_role_column : InviteRole → InviteRole
org_member_role_column owner = admin
org_member_role_column admin = admin
org_member_role_column operator = admin
org_member_role_column member = member

abbrev pub status_at : InviteStatus → Bool → InviteStatus
status_at pending true = expired
status_at pending false = pending
status_at accepted late = accepted
status_at declined late = declined
status_at revoked late = revoked
status_at expired late = expired

abbrev pub effective_status : Invite → ℕ → InviteStatus
effective_status i now = status_at i.status (leb i.expires_at now)

abbrev pub is_pending_status : InviteStatus → Bool
is_pending_status pending = true
is_pending_status _ = false
