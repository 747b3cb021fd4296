-- ===== src/Auth/Access.antt =====
-- src/auth/access.ts: who sees a team.
use text.Mathlib.Text.{◌==◌}
use cliqhub_core.Prelude.{
  String, Bool, true, false, not, ◌&&◌, List, [], Option, none, some, any, truthy, if◌then◌else◌,
}
use cliqhub_core.Auth.{User, Scope, AuthContext, is_daemon_token, has_admin_role}

pub data Visibility : Type 0 where
  public private draft : Visibility

pub record TeamAccess : Type 0 where
  pub visibility : Visibility
  pub author_id : Option String
  pub scope : Option String

-- `a === b`, where `a` may be null.
abbrev pub is_id : Option String → String → Bool
is_id none b = false
is_id (some a) b = a == b

in_scope : Option String → List Scope → Bool
in_scope none scopes = false
in_scope (some scope) scopes = any (λ s. s.slug == scope) scopes

view_as : Visibility → Option User → List Scope → TeamAccess → Bool
view_as public u scopes team = true
view_as draft none scopes team = false
view_as draft (some u) scopes team = is_id team.author_id u.id
view_as private none scopes team = false
view_as private (some u) scopes team = in_scope (truthy team.scope) scopes

unfoldable pub can_view_team : AuthContext → TeamAccess → Bool
unfolding view_as in_scope
can_view_team auth team = view_as team.visibility auth.user auth.member_scopes team

abbrev is_public : Visibility → Bool
is_public public = true
is_public _ = false

read_as : AuthContext → Option User → TeamAccess → Bool → Bool
unfolding can_view_team
read_as auth none team listed = is_public team.visibility && listed
read_as auth (some u) team listed =
    if not (is_daemon_token auth.auth_via) && has_admin_role (some u)
    then true
    else can_view_team auth team

unfoldable pub anonymous : AuthContext
anonymous = record {
  user = none;
  org_ids = [];
  member_scopes = [];
  realm_id = none;
  auth_via = none;
  token_permissions = none;
}

-- `listed` is the team's flag as a condition.
unfoldable pub can_read_team : Option AuthContext → TeamAccess → Bool → Bool
unfolding read_as anonymous
can_read_team none team listed = read_as anonymous none team listed
can_read_team (some auth) team listed = read_as auth auth.user team listed
