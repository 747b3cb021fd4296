-- ===== src/RoutePolicy/Decide/Records.antt =====
-- Records that live in several realms, and requests that target daemons: what `decide` allows.
use mathlib.Core.Path.{subst}
use cliqhub_core.Prelude.{
  String, Bool, true, false, ◌≡◌, ◌↔◌, refl, sym, ap, ◌∙◌, List, ◌∷◌, Option, none, some, arith,
  any, In, any_iff, truthy,
}
use cliqhub_core.Auth.{User, AuthContext}
use cliqhub_core.Auth.Access.{is_id}
use cliqhub_core.RoutePolicy.Policy.{
  Decision, DaemonRule, Level, RealmInfo, RecordKind, RecordScope, RecordPolicy, Policy,
  RequestLike, AccessStore, EngineOptions, is_allowed,
}
use cliqhub_core.RoutePolicy.Fields.{FoundField, first_field}
use cliqhub_core.RoutePolicy.Standing.{is_daemon, user_id, judge_realm}
use cliqhub_core.RoutePolicy.Engine.{with_record, best_standing, realms_of}
use cliqhub_core.RoutePolicy.Cases.{when_signed, when_rule}
use cliqhub_core.RoutePolicy.Decide.{
  decide, decide_record, decide_kind, decide_found, decide_placed,
}
use cliqhub_core.RoutePolicy.Levels.{Granted}
use cliqhub_core.RoutePolicy.Realm.{judge_realm-allowed_iff}
use cliqhub_core.RoutePolicy.Spanning.{best_standing-allowed, with_record-allowed}

-- Records that are loaded by id and judged on the realms they live in.
abbrev pub is_loaded : RecordKind → Bool
is_loaded RecordKind.realm = false
is_loaded RecordKind.team = false
is_loaded _ = true

-- The caller is granted the need on some realm of the list.
abbrev pub GrantedOnSome : AccessStore → AuthContext → Level → Option String → List String → Type 0
GrantedOnSome store auth need perm rids =
    (rid : String) × In rid rids
    × ((realm : RealmInfo) × (store.realm rid ≡ some realm)
        × (realm.deleted ≡ false)
        × Granted store auth realm need perm)

pub when_signed-eq :
    (o : Option AuthContext) (rest : AuthContext → Decision) {auth : AuthContext} {u : User}
    → o ≡ some auth
    → auth.user ≡ some u
    → when_signed o rest ≡ rest auth
when_signed-eq none rest e h = cc
when_signed-eq (some a) rest e h = ground arith

pub when_rule-eq :
    (auth : AuthContext) (rule : Option DaemonRule) (d : Decision)
    → is_daemon auth ≡ false
    → when_rule auth rule d ≡ d
when_rule-eq auth rule d h = ground arith

module _ (store : AccessStore) (req : RequestLike) (opts : EngineOptions) (p : RecordPolicy)
    {auth : AuthContext} {u : User} (is_here : req.auth ≡ some auth) (named : auth.user ≡ some u)
    (is_user : is_daemon auth ≡ false) where
  decide_record-loaded :
      (kind : RecordKind) (f : FoundField)
      → is_loaded kind ≡ true
      → decide_record store req opts auth p kind (some f)
        ≡ decide_found store opts auth p f.value (store.record_scope p.kind f.value req)
  unfolding decide_record
  decide_record-loaded RecordKind.realm f h = cc
  decide_record-loaded _ f h = refl

  decide_kind-loaded :
      (kind : RecordKind) (f : FoundField)
      → is_loaded kind ≡ true
      → decide_kind store req opts p kind (some f)
        ≡ decide_found store opts auth p f.value (store.record_scope p.kind f.value req)
  unfolding decide_kind
  decide_kind-loaded RecordKind.team f h = cc
  decide_kind-loaded kind f h =
      when_signed-eq req.auth
        (λ a. when_rule a p.daemon (decide_record store req opts a p kind (some f))) is_here named
      ∙ when_rule-eq auth p.daemon (decide_record store req opts auth p kind (some f)) is_user
      ∙ decide_record-loaded kind f h

  decide_found-spanning :
      (id : String) (s : RecordScope) {rid : String} {rids : List String}
      → is_id (truthy s.owner_user_id) (user_id auth) ≡ false
      → realms_of s ≡ rid ∷ rids
      → decide_found store opts auth p id (some s)
        ≡ with_record
            (best_standing
              (λ r. judge_realm store auth (store.realm r) p.level p.perm p.daemon opts)
              rid
              rids)
            p.kind
            id
  unfolding decide_found decide_placed
  decide_found-spanning id s m g = rw (is_user, m, g)

  decide-record_any :
      {f : FoundField} {s : RecordScope} {rid : String} {rids : List String}
      → is_loaded p.kind ≡ true
      → first_field req p.from ≡ some f
      → store.record_scope p.kind f.value req ≡ some s
      → is_id (truthy s.owner_user_id) (user_id auth) ≡ false
      → realms_of s ≡ rid ∷ rids
      → is_allowed (decide (Policy.on_record p) req store opts)
        ≡ any
            (λ r. is_allowed (judge_realm store auth (store.realm r) p.level p.perm p.daemon opts))
            (rid ∷ rids)
  unfolding decide
  decide-record_any {f} {s} {rid} {rids} k d e m g =
      let judge =
        λ (r : String). judge_realm store auth (store.realm r) p.level p.perm p.daemon opts in
      ap (λ o. is_allowed (decide_kind store req opts p p.kind o)) d
      ∙ ap is_allowed (decide_kind-loaded p.kind f k)
      ∙ ap (λ o. is_allowed (decide_found store opts auth p f.value o)) e
      ∙ ap is_allowed (decide_found-spanning f.value s m g)
      ∙ with_record-allowed (best_standing judge rid rids) p.kind f.value
      ∙ best_standing-allowed judge rid rids

-- Some realm of the list allows the caller exactly when the caller is granted the need on one.
pub some_realm_iff :
    (store : AccessStore) (auth : AuthContext) (need : Level) (perm : Option String)
    (rule : Option DaemonRule) (opts : EngineOptions) (rids : List String)
    → is_daemon auth ≡ false
    → (any
          (λ r. is_allowed (judge_realm store auth (store.realm r) (some need) perm rule opts))
          rids
        ≡ true)
      ↔ GrantedOnSome store auth need perm rids
some_realm_iff store auth need perm rule opts rids is_user =
    let judged = judge_realm-allowed_iff store auth need perm rule opts is_user in
    let found =
      any_iff (λ r. is_allowed (judge_realm store auth (store.realm r) (some need) perm rule opts))
        rids in
    (
      λ h. let (r, at, y) = found.0 h in (r, at, (judged (store.realm r)).0 y),
      λ (r, at, granted). found.1 (r, at, (judged (store.realm r)).1 granted),
    )

-- A user token on a route for a record that is loaded by id, is not the caller's own and lives in at
-- least one realm, under a policy with a level, is allowed exactly when, on some one of the record's realms, which is there and not
-- deleted, the caller is granted the policy's level and permission.
pub decide-record_iff :
    (p : RecordPolicy) (req : RequestLike) (store : AccessStore) (opts : EngineOptions)
    {auth : AuthContext} {u : User} {f : FoundField} {s : RecordScope} {rid : String}
    {rids : List String} {need : Level}
    → is_loaded p.kind ≡ true
    → req.auth ≡ some auth
    → auth.user ≡ some u
    → is_daemon auth ≡ false
    → first_field req p.from ≡ some f
    → store.record_scope p.kind f.value req ≡ some s
    → is_id (truthy s.owner_user_id) (user_id auth) ≡ false
    → realms_of s ≡ rid ∷ rids
    → p.level ≡ some need
    → (is_allowed (decide (Policy.on_record p) req store opts) ≡ true)
      ↔ GrantedOnSome store auth need p.perm (rid ∷ rids)
decide-record_iff p req store opts {auth} {rid} {rids} {need} k a b c d e m g l =
    rw (decide-record_any store req opts p a b c k d e m g) (
      subst
        (λ level.
          (any (λ r. is_allowed (judge_realm store auth (store.realm r) level p.perm p.daemon opts))
              (rid ∷ rids)
            ≡ true)
          ↔ GrantedOnSome store auth need p.perm (rid ∷ rids))
        (sym l) (some_realm_iff store auth need p.perm p.daemon opts (rid ∷ rids) c))
