-- ===== src/RoutePolicy/Decide/Grants.antt =====
-- What the access that `decide` hands to a route's handler can be relied on for.
use mathlib.Core.Path.{subst}
use cliqhub_core.Prelude.{
  String, Bool, not, true, false, ◌≡◌, refl, sym, ap, Option, none, some, arith, eq_iff, Bool-cases,
  inl, inr, if◌then◌else◌,
}
use cliqhub_core.Auth.{AuthContext}
use cliqhub_core.Auth.Access.{is_id}
use cliqhub_core.RoutePolicy.Policy.{
  RecordKind, Level, operate, RealmInfo, Policy, RequestLike, AccessGrant, AccessStore, DaemonRule,
  EngineOptions, user_token_not_allowed, GrantLevel, of_level, Decision,
}
use cliqhub_core.RoutePolicy.Standing.{
  is_daemon, deny_at, RealmStanding, or_allow, judge_realm, judge_standing, realm_standing,
  realm_access, grant_level, present_realm, judge_present, judge_daemon_token, judge_user_token,
}
use cliqhub_core.RoutePolicy.Rights.{Holds}
use cliqhub_core.RoutePolicy.Levels.{standing-Holds, judge_standing-none}
use cliqhub_core.RoutePolicy.Decide.{decide}
use cliqhub_core.RoutePolicy.Decide.Rules.{Ensures, if_cases-Ensures, IsStored}
use cliqhub_core.RoutePolicy.Decide.Ensures.{decide-Ensures}

-- An access names no realm, or the daemon token's own realm, or a realm that the store returned, that is
-- not deleted there, and on which the caller holds the very level that the access states.
pub data IsBacked (store : AccessStore) (auth : AuthContext) (a : AccessGrant) : Type 0 where
  no_realm : a.realm_id ≡ none → IsBacked store auth a
  own_realm :
      is_daemon auth ≡ true
      → a.realm_id ≡ auth.realm_id
      → a.level ≡ some GrantLevel.daemon
      → IsBacked store auth a
  held :
      is_daemon auth ≡ false
      → (realm : RealmInfo) → a.realm_id ≡ some realm.id
      → IsStored store realm
      → realm.deleted ≡ false
      → (l : Level) → a.level ≡ some (of_level l)
      → Holds store auth realm l
      → IsBacked store auth a

marked-IsBacked :
    (store : AccessStore) (auth : AuthContext) (a : AccessGrant) (kind : RecordKind) (id : String)
    → IsBacked store auth a
    → IsBacked store auth (record a { on_record = some (kind, id) })
marked-IsBacked store auth a kind id (no_realm e) = no_realm e
marked-IsBacked store auth a kind id (own_realm d e f) = own_realm d e f
marked-IsBacked store auth a kind id (held d realm e known live l f why) =
    held d realm e known live l f why

-- A user token's push of daemon state is marked only for a user token, during the transition.
abbrev pub IsPush : EngineOptions → AuthContext → AccessGrant → Type 0
IsPush opts auth a =
    a.pat_daemon_write ≡ true → (is_daemon auth ≡ false) × (opts.allow_pat_daemon_writes ≡ true)

not-false : (b : Bool) → not b ≡ false → b ≡ true
not-false true h = refl
not-false false h = cc

is_id-eq : (o : Option String) (s : String) → is_id o s ≡ true → o ≡ some s
is_id-eq none s h = cc
is_id-eq (some a) s h = ground (arith, eq_iff a s)

module _ (store : AccessStore) (opts : EngineOptions) (auth : AuthContext) where
  judge_daemon_token-IsBacked :
      (realm : RealmInfo) (rule : Option DaemonRule)
      → is_daemon auth ≡ true
      → Ensures (IsBacked store auth) (judge_daemon_token auth realm rule)
  unfolding judge_daemon_token
  judge_daemon_token-IsBacked realm none d = tt
  judge_daemon_token-IsBacked realm (some rule) d =
      elim (Bool-cases (is_id auth.realm_id realm.id)) [
        | inl y ↦ rw y (own_realm d (sym (is_id-eq auth.realm_id realm.id y)) refl)
        | inr n ↦ rw n tt
      ]

  judge_standing-IsBacked :
      (realm : RealmInfo) (need : Level) (perm : Option String) (pat : Bool)
      → is_daemon auth ≡ false
      → IsStored store realm
      → realm.deleted ≡ false
      → judge_standing (realm_standing store auth realm) (some need) perm auth ≡ none
      → IsBacked store auth
          (record (realm_access realm (grant_level (realm_standing store auth realm).level)) {
            pat_daemon_write = pat;
          })
  judge_standing-IsBacked realm need perm pat d known live h =
      let (l, e, high, may) = judge_standing-none store auth realm need perm h in
      held d realm refl known live l (ap grant_level e) (standing-Holds store auth realm l e)

module _ (P : AccessGrant → Type 0) where
  judge_standing-Ensures :
      (s : RealmStanding) (need : Option Level) (perm : Option String) (auth : AuthContext)
      (d : Decision)
      → judge_standing s need perm auth ≡ some d
      → Ensures P d
  unfolding judge_standing
  judge_standing-Ensures s need perm auth d h = ground arith

  or_allow-Ensures :
      (o : Option Decision) (a : AccessGrant)
      → (o ≡ none → P a)
      → ((d : Decision) → o ≡ some d → Ensures P d)
      → Ensures P (or_allow o a)
  or_allow-Ensures none a h k = h refl
  or_allow-Ensures (some d) a h k = k d refl

-- A realm that is present was found, and is not deleted.
present_realm_lem :
    (found : Option RealmInfo) (realm : RealmInfo)
    → present_realm found ≡ some realm
    → (found ≡ some realm) × (realm.deleted ≡ false)
present_realm_lem none realm h = cc
present_realm_lem (some x) realm h =
    let (n, same) = kept x.deleted h in (ap some same, subst (λ y. y.deleted ≡ false) same n)
  where
    kept : (b : Bool) → (if b then none else some x) ≡ some realm → (b ≡ false) × (x ≡ realm)
    kept true q = cc
    kept false q = (refl, cc)

module _ (P : AccessGrant → Type 0) (store : AccessStore) (opts : EngineOptions)
    (auth : AuthContext) (need : Option Level) (perm : Option String) (rule : Option DaemonRule)
    (as_daemon : (realm : RealmInfo)
      → is_daemon auth ≡ true
      → Ensures P (judge_daemon_token auth realm rule))
    (as_user : (realm : RealmInfo)
      → is_daemon auth ≡ false
      → IsStored store realm
      → realm.deleted ≡ false
      → Ensures P (judge_user_token store auth realm need perm opts)) where
  judge_present-Ensures :
      (found : Option RealmInfo)
      → ((realm : RealmInfo) → found ≡ some realm → IsStored store realm × (realm.deleted ≡ false))
      → Ensures P (judge_present store auth found need perm rule opts)
  unfolding judge_present
  judge_present-Ensures none live = tt
  judge_present-Ensures (some realm) live = elim (Bool-cases (is_daemon auth)) [
    | inl d ↦ rw d (as_daemon realm d)
    | inr n ↦ rw n (as_user realm n (live realm refl).0 (live realm refl).1)
  ]

  judge_realm-Ensures :
      (found : Option RealmInfo)
      → ((realm : RealmInfo) → found ≡ some realm → IsStored store realm)
      → Ensures P (judge_realm store auth found need perm rule opts)
  unfolding judge_realm
  judge_realm-Ensures found known =
      judge_present-Ensures (present_realm found)
        (λ realm e. let (same, live) = present_realm_lem found realm e in (known realm same, live))

judge_daemon_token-IsPush :
    (opts : EngineOptions) (auth : AuthContext) (realm : RealmInfo) (rule : Option DaemonRule)
    → Ensures (IsPush opts auth) (judge_daemon_token auth realm rule)
unfolding judge_daemon_token
judge_daemon_token-IsPush opts auth realm none = tt
judge_daemon_token-IsPush opts auth realm (some rule) = ground arith

module _ (store : AccessStore) (opts : EngineOptions) (auth : AuthContext) where
  judge_user_token-IsPush :
      (realm : RealmInfo) (need : Option Level) (perm : Option String)
      → is_daemon auth ≡ false
      → Ensures (IsPush opts auth) (judge_user_token store auth realm need perm opts)
  unfolding judge_user_token
  judge_user_token-IsPush realm (some need) perm d =
      or_allow-Ensures (IsPush opts auth)
        (judge_standing (realm_standing store auth realm) (some need) perm auth) _ (λ e h. cc)
        (judge_standing-Ensures (IsPush opts auth) (realm_standing store auth realm) (some need)
          perm auth)
  judge_user_token-IsPush realm none perm d =
      if_cases-Ensures (IsPush opts auth) (not opts.allow_pat_daemon_writes)
        (deny_at 403 user_token_not_allowed (realm_access realm none)) _ (λ off. tt)
        (λ is_on.
          or_allow-Ensures (IsPush opts auth)
            (judge_standing (realm_standing store auth realm) (some operate) none auth) _
            (λ e h. (d, not-false opts.allow_pat_daemon_writes is_on))
            (judge_standing-Ensures (IsPush opts auth) (realm_standing store auth realm)
              (some operate) none auth))

  judge_user_token-IsBacked :
      (realm : RealmInfo) (need : Option Level) (perm : Option String)
      → is_daemon auth ≡ false
      → IsStored store realm
      → realm.deleted ≡ false
      → Ensures (IsBacked store auth) (judge_user_token store auth realm need perm opts)
  unfolding judge_user_token
  judge_user_token-IsBacked realm (some need) perm d known live =
      or_allow-Ensures (IsBacked store auth)
        (judge_standing (realm_standing store auth realm) (some need) perm auth) _
        (judge_standing-IsBacked store opts auth realm need perm false d known live)
        (judge_standing-Ensures (IsBacked store auth) (realm_standing store auth realm) (some need)
          perm auth)
  judge_user_token-IsBacked realm none perm d known live =
      elim (Bool-cases opts.allow_pat_daemon_writes) [
        | inr n ↦ rw n tt
        | inl y ↦ rw y (
            or_allow-Ensures (IsBacked store auth)
              (judge_standing (realm_standing store auth realm) (some operate) none auth) _
              (judge_standing-IsBacked store opts auth realm operate none true d known live)
              (judge_standing-Ensures (IsBacked store auth) (realm_standing store auth realm)
                (some operate) none auth))
      ]

  -- For an authenticated request, whatever the policy of the route: an access that the engine grants
  -- names no realm, or it is a daemon token's and names that token's own realm, or it is a user
  -- token's, names a realm that the store returned and that is not deleted, and states a level that the caller holds
  -- there by a role, by ownership, by leading the org or as a site admin.
  pub decide-IsBacked :
      (p : Policy) (req : RequestLike)
      → req.auth ≡ some auth
      → Ensures (IsBacked store auth) (decide p req store opts)
  decide-IsBacked = decide-Ensures store opts auth (IsBacked store auth) (record {
    marked = marked-IsBacked store auth;
    unplaced = λ a e f. no_realm e;
    own = λ d. own_realm d refl refl;
    pushed = λ d w. no_realm refl;
    on_realm = λ found need perm rule known.
        judge_realm-Ensures (IsBacked store auth) store opts auth need perm rule
          (λ realm. judge_daemon_token-IsBacked store opts auth realm rule)
          (λ realm. judge_user_token-IsBacked realm need perm) found known;
  })

  -- An access is marked as a daemon push by a user token only for a user token, and only while the
  -- transition option is on.
  pub decide-IsPush :
      (p : Policy) (req : RequestLike)
      → req.auth ≡ some auth
      → Ensures (IsPush opts auth) (decide p req store opts)
  decide-IsPush = decide-Ensures store opts auth (IsPush opts auth) (record {
    marked = λ a kind id h. h;
    unplaced = λ a e f h. cc;
    own = λ d h. cc;
    pushed = λ d w h. (d, w);
    on_realm = λ found need perm rule known.
        judge_realm-Ensures (IsPush opts auth) store opts auth need perm rule
          (λ realm d. judge_daemon_token-IsPush opts auth realm rule)
          (λ realm n kept live. judge_user_token-IsPush realm need perm n) found known;
  })
