-- ===== src/RoutePolicy/Levels.antt =====
-- The engine's realm decision against the rights of `Rights`.
use text.Mathlib.Text.{◌==◌}
use cliqhub_core.Prelude.{
  ℕ, String, Bool, true, false, ◌≡◌, ◌≢◌, ◌≤◌, ◌⊎◌, refl, Option, none, some, truthy, arith, eq_iff,
  inl, inr, Bool-cases, Option-cases, not, ◌&&◌,
}
use cliqhub_core.Auth.{AuthContext}
use cliqhub_core.Auth.Access.{is_id}
use cliqhub_core.RoutePolicy.Policy.{
  Level, level_rank, OrgRoleInfo, RealmInfo, RealmRole, AccessStore,
}
use cliqhub_core.RoutePolicy.Standing.{
  is_site_admin, user_id, realm_role_level, max_level, role_has, realm_standing, judge_standing,
  lacks, raise_owner, raise_org, level_of_role,
}
use cliqhub_core.RoutePolicy.Rights.{
  org_role_at, Holds, as_site_admin, as_org_owner, as_org_admin, as_owner, as_member, Permitted,
  not_asked, by_site_admin, as_guest, by_org_owner, by_org_role,
}

-- How high an optional level stands; a caller with no standing has 0, below every need.
abbrev pub rank_of : Option Level → ℕ
rank_of none = 0
rank_of (some l) = level_rank l

raise_owner_sources :
    (b : Bool) (x : Option Level) {l : Level}
    → raise_owner b x ≡ some l
    → ((b ≡ true) × (l ≡ Level.admin)) ⊎ (x ≡ some l)
unfolding max_level
raise_owner_sources b x h = ground arith

raise_org_sources :
    (o : Option OrgRoleInfo) (x : Option Level) {l : Level}
    → raise_org o x ≡ some l
    → ((role : OrgRoleInfo) × (o ≡ some role)
        × (((role.is_system ≡ true) ⊎ (role.slug ≡ "admin")) × (l ≡ Level.admin)))
      ⊎ (x ≡ some l)
raise_org_sources none x h = inr h
raise_org_sources (some role) x h = elim (Bool-cases role.is_system) [
  | inl e ↦ inl (role, refl, (inl e, ground arith))
  | inr e ↦ elim (Bool-cases (role.slug == "admin")) [
    | inl q ↦ inl (role, refl, (inr ((eq_iff _ _).0 q), ground arith))
    | inr q ↦ inr (ground arith)
  ]
]

is_id_sound : (o : Option String) (s : String) → is_id (truthy o) s ≡ true → (o ≡ some s) × (s ≢ "")
is_id_sound none s h = cc
is_id_sound (some a) s h = ground (arith, eq_iff a s, eq_iff a "")

is_id_complete : (o : Option String) (s : String) → o ≡ some s → s ≢ "" → is_id (truthy o) s ≡ true
is_id_complete none s h n = cc
is_id_complete (some a) s h n = ground (arith, eq_iff a s, eq_iff a "")

level_of_role_sources :
    (o : Option RealmRole) {l : Level}
    → level_of_role o ≡ some l
    → (role : RealmRole) × (o ≡ some role) × (l ≡ realm_role_level role)
level_of_role_sources none h = cc
level_of_role_sources (some role) h = (role, refl, ground arith)

module _ (store : AccessStore) (auth : AuthContext) (realm : RealmInfo) where
  pub standing-Holds :
      (l : Level) → (realm_standing store auth realm).level ≡ some l → Holds store auth realm l
  unfolding realm_standing
  standing-Holds l h =
      let mine = is_id (truthy realm.owner_user_id) (user_id auth) in
      let org = org_role_at store auth realm in
      let own = level_of_role (store.realm_role realm.id (user_id auth)) in
      elim (Bool-cases (is_site_admin auth)) [
        | inl s ↦ as_site_admin s (ground arith)
        | inr s ↦ elim (raise_owner_sources mine (raise_org org own) {l = l} (ground arith)) [
          | inl (is_own, top) ↦
              let (o, n) = is_id_sound realm.owner_user_id (user_id auth) is_own in as_owner o n top
          | inr rest ↦ elim (raise_org_sources org own {l = l} rest) [
            | inl (role, found, (inl sys, top)) ↦ as_org_owner role found sys top
            | inl (role, found, (inr slug, top)) ↦ as_org_admin role found slug top
            | inr base ↦
                let (role, found, e) =
                  level_of_role_sources (store.realm_role realm.id (user_id auth)) {l = l} base in
                as_member role found e
          ]
        ]
      ]

  pub Holds-standing :
      (l : Level)
      → Holds store auth realm l
      → level_rank l ≤ rank_of (realm_standing store auth realm).level
  unfolding realm_standing max_level
  Holds-standing l (as_site_admin s e) = ground arith
  Holds-standing l (as_org_owner role found sys e) = ground arith
  Holds-standing l (as_org_admin role found slug e) = ground (arith, eq_iff role.slug "admin")
  Holds-standing l (as_owner own n e) =
      ground (arith, is_id_complete realm.owner_user_id (user_id auth) own n)
  Holds-standing l (as_member role found e) = ground arith

  -- `judge_standing` on a standing: the level must be there, be high enough, and the permission held.
  pub judge_standing-none :
      (need : Level) (perm : Option String)
      → judge_standing (realm_standing store auth realm) (some need) perm auth ≡ none
      → (l : Level) × ((realm_standing store auth realm).level ≡ some l)
        × (level_rank need ≤ level_rank l)
        × ((not (is_site_admin auth) && lacks perm (realm_standing store auth realm).org_role)
            ≡ false)
  unfolding judge_standing
  judge_standing-none need perm h = elim (Option-cases (realm_standing store auth realm).level) [
    | inl e ↦ ground arith
    | inr (l, e) ↦ (l, e, ground arith, ground arith)
  ]

  pub standing_org_role :
      is_site_admin auth ≡ false
      → (realm_standing store auth realm).org_role ≡ org_role_at store auth realm
  unfolding realm_standing
  standing_org_role h = ground arith

lacks-Permitted :
    (store : AccessStore) (auth : AuthContext) (realm : RealmInfo) (o : Option OrgRoleInfo)
    (perm : Option String)
    → org_role_at store auth realm ≡ o
    → lacks perm o ≡ false
    → Permitted store auth realm perm
unfolding role_has
lacks-Permitted store auth realm o none e h = not_asked refl
lacks-Permitted store auth realm none (some p) e h = as_guest e
lacks-Permitted store auth realm (some role) (some p) e h = elim (Bool-cases (p == "")) [
  | inl b ↦ not_asked (ground arith)
  | inr b ↦ elim (Bool-cases role.is_system) [
    | inl y ↦ by_org_owner role e y
    | inr n ↦ by_org_role role p e refl (ground arith)
  ]
]

Permitted-lacks :
    (store : AccessStore) (auth : AuthContext) (realm : RealmInfo) (perm : Option String)
    → is_site_admin auth ≡ false
    → Permitted store auth realm perm
    → lacks perm (org_role_at store auth realm) ≡ false
unfolding role_has
Permitted-lacks store auth realm none n h = refl
Permitted-lacks store auth realm (some p) n (not_asked e) = ground arith
Permitted-lacks store auth realm (some p) n (by_site_admin e) = cc
Permitted-lacks store auth realm (some p) n (as_guest e) = ground arith
Permitted-lacks store auth realm (some p) n (by_org_owner role e sys) = ground arith
Permitted-lacks store auth realm (some p) n (by_org_role role q e eq inc) = ground arith

judge_standing-eq_none :
    (store : AccessStore) (auth : AuthContext) (realm : RealmInfo) (need : Level)
    (perm : Option String)
    → level_rank need ≤ rank_of (realm_standing store auth realm).level
    → (not (is_site_admin auth) && lacks perm (realm_standing store auth realm).org_role) ≡ false
    → judge_standing (realm_standing store auth realm) (some need) perm auth ≡ none
unfolding judge_standing
judge_standing-eq_none store auth realm need perm h k = ground arith

-- What a user token is granted on a realm: a level that is high enough for a stated reason, and no
-- org permission in the way.
abbrev pub Granted : AccessStore → AuthContext → RealmInfo → Level → Option String → Type 0
Granted store auth realm need perm =
    ((l : Level) × Holds store auth realm l × (level_rank need ≤ level_rank l))
    × Permitted store auth realm perm

pub standing-Granted :
    (store : AccessStore) (auth : AuthContext) (realm : RealmInfo) (need : Level)
    (perm : Option String)
    → judge_standing (realm_standing store auth realm) (some need) perm auth ≡ none
    → Granted store auth realm need perm
standing-Granted store auth realm need perm h =
    let (l, e, high, may) = judge_standing-none store auth realm need perm h in
    (
      (l, standing-Holds store auth realm l e, high),
      elim (Bool-cases (is_site_admin auth)) [
        | inl s ↦ by_site_admin s
        | inr s ↦
            lacks-Permitted store auth realm _ perm refl
              (ground (arith, standing_org_role store auth realm s))
      ],
    )

pub Granted-standing :
    (store : AccessStore) (auth : AuthContext) (realm : RealmInfo) (need : Level)
    (perm : Option String)
    → Granted store auth realm need perm
    → judge_standing (realm_standing store auth realm) (some need) perm auth ≡ none
Granted-standing store auth realm need perm ((l, why, high), may) =
    judge_standing-eq_none store auth realm need perm
      (omega (arith, Holds-standing store auth realm l why))
      (elim (Bool-cases (is_site_admin auth)) [
        | inl s ↦ ground arith
        | inr s ↦ ground (
          arith,
          standing_org_role store auth realm s,
          Permitted-lacks store auth realm perm s may,
        )
      ])
