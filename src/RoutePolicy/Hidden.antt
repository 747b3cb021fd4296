-- ===== src/RoutePolicy/Hidden.antt =====
-- What a refusal tells: a realm on which the caller has no standing looks like one that is not there.
use cliqhub_core.Prelude.{
  ℕ, ◌≤◌, String, true, false, ◌≡◌, ◌↔◌, refl, Option, none, some, arith, Bool-cases, Option-cases,
  inl, inr,
}
use cliqhub_core.Auth.{AuthContext}
use cliqhub_core.RoutePolicy.Policy.{
  Level, level_rank, RealmInfo, AccessStore, DaemonRule, EngineOptions, DenyReason,
  not_found_or_hidden, Decision, allowed, denied,
}
use cliqhub_core.RoutePolicy.Standing.{is_daemon, realm_standing, judge_standing, judge_realm}
use cliqhub_core.RoutePolicy.Rights.{Holds}
use cliqhub_core.RoutePolicy.Levels.{standing-Holds, Holds-standing}

-- What the caller sees of a refusal.
abbrev pub answer_of : Decision → Option (ℕ × DenyReason)
answer_of (allowed a u) = none
answer_of (denied status reason a d) = some (status, reason)

abbrev pub hidden : Option (ℕ × DenyReason)
hidden = some (404, not_found_or_hidden)

module _ (store : AccessStore) (auth : AuthContext) (need : Level) (perm : Option String)
    (rule : Option DaemonRule) (opts : EngineOptions) (is_user : is_daemon auth ≡ false) where
  hidden-no_level :
      (realm : RealmInfo)
      → realm.deleted ≡ false
      → answer_of (judge_realm store auth (some realm) (some need) perm rule opts) ≡ hidden
      → (realm_standing store auth realm).level ≡ none
  unfolding judge_realm judge_standing
  hidden-no_level realm live h = ground arith

  no_level-hidden :
      (realm : RealmInfo)
      → (realm_standing store auth realm).level ≡ none
      → answer_of (judge_realm store auth (some realm) (some need) perm rule opts) ≡ hidden
  unfolding judge_realm judge_standing
  no_level-hidden realm h = ground arith

  deleted-hidden :
      (realm : RealmInfo)
      → realm.deleted ≡ true
      → answer_of (judge_realm store auth (some realm) (some need) perm rule opts) ≡ hidden
  unfolding judge_realm
  deleted-hidden realm h = ground arith

  no_rank : (l : Level) → ¬ (level_rank l ≤ 0)
  no_rank l h = ground arith

  hidden-no_standing :
      (found : Option RealmInfo)
      → answer_of (judge_realm store auth found (some need) perm rule opts) ≡ hidden
      → (realm : RealmInfo) → found ≡ some realm
      → realm.deleted ≡ false
      → (l : Level) → ¬ Holds store auth realm l
  hidden-no_standing found h realm e live l why =
      let none_there = hidden-no_level realm live (rw e at h) in
      let high = Holds-standing store auth realm l why in no_rank l (rw none_there at high)

  no_standing-hidden :
      (found : Option RealmInfo)
      → ((realm : RealmInfo)
          → found ≡ some realm
          → realm.deleted ≡ false
          → (l : Level) → ¬ Holds store auth realm l)
      → answer_of (judge_realm store auth found (some need) perm rule opts) ≡ hidden
  no_standing-hidden none nobody = unfold judge_realm in refl
  no_standing-hidden (some realm) nobody = elim (Bool-cases realm.deleted) [
    | inl gone ↦ deleted-hidden realm gone
    | inr live ↦ elim (Option-cases (realm_standing store auth realm).level) [
      | inl e ↦ no_level-hidden realm e
      | inr (l, e) ↦ absurd (nobody realm refl live l (standing-Holds store auth realm l e))
    ]
  ]

  -- To a user token, with a level to meet, a realm answers 404 "not found or hidden" exactly when no
  -- realm that is there and not deleted gives the caller any level at all: a realm that the caller
  -- has no standing on and a realm that does not exist answer alike.
  pub judge_realm-hidden_iff :
      (found : Option RealmInfo)
      → (answer_of (judge_realm store auth found (some need) perm rule opts) ≡ hidden) ↔ (
          (realm : RealmInfo)
          → found ≡ some realm
          → realm.deleted ≡ false
          → (l : Level) → ¬ Holds store auth realm l)
  judge_realm-hidden_iff found = (hidden-no_standing found, no_standing-hidden found)
