-- ===== src/RoutePolicy/Decide/Ensures.antt =====
-- A rule for `decide`: what holds of the access that each step grants holds of every access that the
-- engine grants to an authenticated request, whatever the policy.
use cliqhub_core.Prelude.{
  String, Bool, truthy, true, not, ◌&&◌, false, ◌≡◌, refl, sym, List, [], ◌∷◌, Option, none, some,
  arith, Bool-cases, if◌then◌else◌, inl, inr,
}
use cliqhub_core.Json.{get_prop}
use mathlib.Core.Path.{subst}
use cliqhub_core.Auth.{User, AuthContext}
use cliqhub_core.Auth.Access.{TeamAccess, is_id}
use cliqhub_core.RoutePolicy.Policy.{
  RealmInfo, FieldRef, Level, RecordKind, daemon, team, RealmPolicy, RecordPolicy, RecordScope,
  ScopePolicy, RealmNeed, OrgNeed, Otherwise, daemon_other_realm, Policy, RequestLike, AccessGrant,
  AccessStore, DaemonRule, EngineOptions, Decision, is_allowed,
}
use cliqhub_core.RoutePolicy.Standing.{
  is_daemon, user_id, allow, deny_at, deny, judge_realm, judge_org,
}
use cliqhub_core.RoutePolicy.Fields.{FoundField, first_field, read_field, names_slug}
use cliqhub_core.RoutePolicy.Engine.{
  with_record, best_standing, judge_daemon_realms, judge_each, realms_of_option, realms_of,
  resolve_realm, realm_in_org, resolve_org_id,
}
use cliqhub_core.RoutePolicy.Cases.{
  daemon_grant, all_daemons, when_signed, when_rule, decide_daemons, decide_realm,
  decide_scope_realm, decide_scope_org, decide_org, when_user, has_text, includes_id, of_record,
  admin_of, named_realm, decide_site_admin, decide_daemon_self, decide_daemon_realm, Named,
  named_org, ids_of,
}
use cliqhub_core.RoutePolicy.Decide.{
  decide, decide_unplaced, decide_placed, decide_found, decide_record, decide_team, view_team,
  daemon_of, decide_named_team, context_of, team_of, decide_install, team_or_install, installing,
  text_of, decide_kind, is_present, org_perm_of,
}
use cliqhub_core.RoutePolicy.Decide.Rules.{
  IsStored, Ensures, Steps, if-Ensures, with_record-Ensures, best_standing-Ensures,
  all_daemons-Ensures, Ensures-mono, when_rule-Ensures, IsUnplaced, judge_org-IsUnplaced,
}

realm_in_org-IsStored :
    (store : AccessStore) (org_id : Option String) (slug : String) (realm : RealmInfo)
    → realm_in_org store org_id slug ≡ some realm
    → IsStored store realm
realm_in_org-IsStored store none slug realm e = cc
realm_in_org-IsStored store (some org_id) slug realm e = inr (org_id, slug, e)

resolve_realm-IsStored :
    (store : AccessStore) (req : RequestLike) (ref : FieldRef) (value : String) (realm : RealmInfo)
    → resolve_realm store req ref value ≡ some realm
    → IsStored store realm
unfolding resolve_realm
resolve_realm-IsStored store req ref value realm e = elim (Bool-cases (names_slug ref)) [
  | inl t ↦ realm_in_org-IsStored store _ value realm (rw t at e)
  | inr n ↦ inl (value, rw n at e)
]

module _ (store : AccessStore) (opts : EngineOptions) (auth : AuthContext)
    (P : AccessGrant → Type 0) (steps : Steps store opts auth P) where
  open steps use {marked, unplaced, own, pushed, on_realm}

  IsUnplaced-Ensures : (d : Decision) → Ensures IsUnplaced d → Ensures P d
  IsUnplaced-Ensures d h = Ensures-mono P IsUnplaced d (λ a q. unplaced a q.0 q.1) h

  judge_org-Ensures :
      (org_id : Option String) (perm : String) → Ensures P (judge_org store auth org_id perm)
  judge_org-Ensures org_id perm = IsUnplaced-Ensures _ (judge_org-IsUnplaced store auth org_id perm)

  spanning-Ensures :
      (rid : String) (rids : List String) (need : Option Level) (perm : Option String)
      (rule : Option DaemonRule) (kind : RecordKind) (id : String)
      → Ensures P (
          with_record
            (best_standing
              (λ r. judge_realm store auth (store.realm r) need perm rule opts)
              rid
              rids)
            kind
            id)
  spanning-Ensures rid rids need perm rule kind id =
      with_record-Ensures P _ kind id (λ a. marked a kind id)
        (best_standing-Ensures P _ rid rids
          (λ r. on_realm (store.realm r) need perm rule (λ realm e. inl (r, e))))

  judge_each-Ensures :
      (rids : List String) (id : String) (need : Option Level) (perm : Option String)
      (rule : Option DaemonRule)
      → Ensures P (judge_each store auth rids id need perm rule opts)
  unfolding judge_each
  judge_each-Ensures [] id need perm rule = IsUnplaced-Ensures _ (ground arith)
  judge_each-Ensures (rid ∷ rids) id need perm rule =
      spanning-Ensures rid rids need perm rule daemon id

  judge_daemon_realms-Ensures :
      (req : RequestLike) (id : String) (need : Option Level) (perm : Option String)
      (rule : Option DaemonRule)
      → Ensures P (judge_daemon_realms store req auth id need perm rule opts)
  unfolding judge_daemon_realms
  judge_daemon_realms-Ensures req id need perm rule =
      judge_each-Ensures (realms_of_option (store.record_scope daemon id req)) id need perm rule

  decide_daemons-Ensures :
      (judge : String → Decision) (ids : List String)
      → ((id : String) → Ensures P (judge id))
      → Ensures P (decide_daemons judge ids)
  unfolding decide_daemons
  decide_daemons-Ensures judge [] each = unplaced _ refl refl
  decide_daemons-Ensures judge (id ∷ ids) each =
      if-Ensures P (is_allowed (judge id)) (all_daemons judge (judge id) ids) (judge id)
        (all_daemons-Ensures P judge (judge id) ids each (each id)) (each id)

  decide_realm-Ensures :
      (req : RequestLike) (p : RealmPolicy) (f : Option FoundField)
      → Ensures P (decide_realm store req opts auth p f)
  unfolding decide_realm
  decide_realm-Ensures req p none =
      decide_daemons-Ensures _ (ids_of req p.daemons)
        (λ id. judge_daemon_realms-Ensures req id p.level p.perm p.daemon)
  decide_realm-Ensures req p (some f) =
      on_realm (resolve_realm store req f.ref f.value) p.level p.perm p.daemon
        (resolve_realm-IsStored store req f.ref f.value)

  decide_scope_org-Ensures :
      (o : Option (Named OrgNeed)) (otherwise : Otherwise)
      → Ensures P (decide_scope_org store auth o otherwise)
  unfolding decide_scope_org
  decide_scope_org-Ensures none Otherwise.none = unplaced _ refl refl
  decide_scope_org-Ensures none Otherwise.required = tt
  decide_scope_org-Ensures (some o) otherwise =
      if-Ensures P (is_daemon auth) _
        (judge_org store auth (resolve_org_id store o.field.ref o.field.value) o.need.perm)
        (unplaced _ refl refl)
        (judge_org-Ensures (resolve_org_id store o.field.ref o.field.value) o.need.perm)

  decide_scope-Ensures :
      (req : RequestLike) (p : ScopePolicy) (r : Option (Named RealmNeed))
      → Ensures P (decide_scope_realm store req opts auth p r)
  unfolding decide_scope_realm
  decide_scope-Ensures req p none = decide_scope_org-Ensures (named_org req p.org) p.otherwise
  decide_scope-Ensures req p (some r) =
      on_realm (resolve_realm store req r.field.ref r.field.value) (some r.need.level) r.need.perm
        p.daemon (resolve_realm-IsStored store req r.field.ref r.field.value)

  decide_org-Ensures :
      (f : Option FoundField) (perm : String) → Ensures P (decide_org store auth f perm)
  unfolding decide_org
  decide_org-Ensures none perm = unplaced _ refl refl
  decide_org-Ensures (some f) perm = judge_org-Ensures (resolve_org_id store f.ref f.value) perm

  decide_unplaced-Ensures :
      (p : RecordPolicy) (id : String) (org_id : Option String)
      → Ensures P (decide_unplaced store auth p id org_id)
  unfolding decide_unplaced
  decide_unplaced-Ensures p id none = IsUnplaced-Ensures _ (ground arith)
  decide_unplaced-Ensures p id (some org_id) =
      with_record-Ensures P _ p.kind id (λ a. marked a p.kind id)
        (judge_org-Ensures (some org_id) (org_perm_of p.org_perm p.perm))

  decide_placed-Ensures :
      (p : RecordPolicy) (id : String) (org_id : Option String) (rids : List String)
      → Ensures P (decide_placed store opts auth p id org_id rids)
  unfolding decide_placed
  decide_placed-Ensures p id org_id [] = decide_unplaced-Ensures p id (truthy org_id)
  decide_placed-Ensures p id org_id (rid ∷ rids) =
      spanning-Ensures rid rids p.level p.perm p.daemon p.kind id

  decide_found-Ensures :
      (p : RecordPolicy) (id : String) (s : Option RecordScope)
      → Ensures P (decide_found store opts auth p id s)
  unfolding decide_found
  decide_found-Ensures p id none = tt
  decide_found-Ensures p id (some s) =
      if-Ensures P (not (is_daemon auth) && is_id (truthy s.owner_user_id) (user_id auth))
        (allow (admin_of p.kind id)) (decide_placed store opts auth p id s.org_id (realms_of s))
        (unplaced (admin_of p.kind id) refl refl)
        (decide_placed-Ensures p id s.org_id (realms_of s))

  decide_record-Ensures :
      (req : RequestLike) (p : RecordPolicy) (kind : RecordKind) (f : Option FoundField)
      → Ensures P (decide_record store req opts auth p kind f)
  unfolding decide_record
  decide_record-Ensures req p kind none = unplaced _ refl refl
  decide_record-Ensures req p RecordKind.realm (some f) =
      with_record-Ensures P _ RecordKind.realm f.value (λ a. marked a RecordKind.realm f.value)
        (on_realm (resolve_realm store req f.ref f.value) p.level p.perm p.daemon
          (resolve_realm-IsStored store req f.ref f.value))
  decide_record-Ensures req p kind (some f) =
      decide_found-Ensures p f.value (store.record_scope p.kind f.value req)

  view_team-Ensures :
      (caller : AuthContext) (id : String) (t : Option TeamAccess)
      → Ensures P (view_team caller id t)
  unfolding view_team
  view_team-Ensures caller id none = tt
  view_team-Ensures caller id (some t) = IsUnplaced-Ensures _ (ground arith)

  decide_named_team-Ensures :
      (req : RequestLike) (f : Option FoundField) → Ensures P (decide_named_team store req f)
  unfolding decide_named_team
  decide_named_team-Ensures req none = IsUnplaced-Ensures _ (ground arith)
  decide_named_team-Ensures req (some f) =
      view_team-Ensures (context_of req.auth) f.value
        (team_of (store.record_scope team f.value req))

  decide_install-Ensures :
      (req : RequestLike) (id : String)
      → is_daemon auth ≡ true
      → Ensures P (decide_install store req (auth, id))
  unfolding decide_install
  decide_install-Ensures req id d =
      if-Ensures P
        (has_text auth.realm_id
          && includes_id (realms_of_option (store.record_scope daemon id req)) auth.realm_id)
        (allow (record (daemon_grant auth) { on_record = some (daemon, id) }))
        (deny_at 401 daemon_other_realm (of_record daemon id))
        (marked (daemon_grant auth) daemon id (own d)) tt

  team_or_install-Ensures :
      (req : RequestLike) (f : Option FoundField) (rule : Option DaemonRule) (id : Option String)
      (via : Bool)
      → is_daemon auth ≡ via
      → Ensures P
          (team_or_install store req f (installing (if via then some auth else none) rule id))
  unfolding team_or_install
  team_or_install-Ensures req f rule id false e = decide_named_team-Ensures req f
  team_or_install-Ensures req f none id true e = decide_named_team-Ensures req f
  team_or_install-Ensures req f (some rule) none true e = decide_named_team-Ensures req f
  team_or_install-Ensures req f (some rule) (some id) true e = decide_install-Ensures req id e

  decide_team-Ensures :
      (req : RequestLike) (f : Option FoundField) (rule : Option DaemonRule)
      → req.auth ≡ some auth
      → Ensures P (decide_team store req f rule)
  unfolding decide_team
  decide_team-Ensures req f rule e =
      let id = text_of (get_prop req.body "daemon_id") in
      subst (λ o. Ensures P (team_or_install store req f (installing (daemon_of o) rule id)))
        (sym e) (team_or_install-Ensures req f rule id (is_daemon auth) refl)

  when_user-Ensures : (u : Option User) (d : Decision) → Ensures P d → Ensures P (when_user u d)
  when_user-Ensures none d h = tt
  when_user-Ensures (some u) d h = h

  when_signed-Ensures :
      (req : RequestLike) (rest : AuthContext → Decision)
      → req.auth ≡ some auth
      → Ensures P (rest auth)
      → Ensures P (when_signed req.auth rest)
  when_signed-Ensures req rest e h =
      subst (λ o. Ensures P (when_signed o rest)) (sym e)
        (when_user-Ensures auth.user (rest auth) h)

  ruled-Ensures :
      (req : RequestLike) (rule : Option DaemonRule) (rest : AuthContext → Decision)
      → req.auth ≡ some auth
      → Ensures P (rest auth)
      → Ensures P (when_signed req.auth (λ a. when_rule a rule (rest a)))
  ruled-Ensures req rule rest e h =
      when_signed-Ensures req _ e (when_rule-Ensures P auth rule (rest auth) h)

  decide_kind-Ensures :
      (req : RequestLike) (p : RecordPolicy) (kind : RecordKind) (f : Option FoundField)
      → req.auth ≡ some auth
      → Ensures P (decide_kind store req opts p kind f)
  unfolding decide_kind
  decide_kind-Ensures req p team f e = decide_team-Ensures req f p.daemon e
  decide_kind-Ensures req p kind f e =
      ruled-Ensures req p.daemon _ e (decide_record-Ensures req p kind f)

  decide_site_admin-Ensures : (r : Bool) → Ensures P (decide_site_admin auth r)
  unfolding decide_site_admin
  decide_site_admin-Ensures r = IsUnplaced-Ensures _ (ground arith)

  decide_daemon_self-Ensures : (only : Bool) → Ensures P (decide_daemon_self auth only opts)
  unfolding decide_daemon_self
  decide_daemon_self-Ensures only = elim (Bool-cases (is_daemon auth)) [
    | inl y ↦ rw y (own y)
    | inr n ↦ rw n (
        if-Ensures P only _ _ tt (elim (Bool-cases opts.allow_pat_daemon_writes) [
          | inl w ↦ rw w (pushed n w)
          | inr w ↦ rw w tt
        ]))
  ]

  decide_daemon_realm-Ensures : Ensures P (decide_daemon_realm auth opts)
  unfolding decide_daemon_realm
  decide_daemon_realm-Ensures = elim (Bool-cases (is_daemon auth)) [
    | inl y ↦ rw y (
        if-Ensures P (has_text auth.realm_id) (allow (daemon_grant auth))
          (deny 403 daemon_other_realm) (own y) tt)
    | inr n ↦ rw n (elim (Bool-cases opts.allow_pat_daemon_writes) [
      | inl w ↦ rw w (pushed n w)
      | inr w ↦ rw w tt
    ])
  ]

  -- What every step grants, the engine grants, whatever the policy.
  pub decide-Ensures :
      (p : Policy) (req : RequestLike) → req.auth ≡ some auth → Ensures P (decide p req store opts)
  unfolding decide
  decide-Ensures (Policy.by_body field p q) req e =
      if-Ensures P (is_present (read_field req field)) (decide p req store opts)
        (decide q req store opts) (decide-Ensures p req e) (decide-Ensures q req e)
  decide-Ensures Policy.public req e = unplaced _ refl refl
  decide-Ensures Policy.bff_only req e = unplaced _ refl refl
  decide-Ensures Policy.a2a_dispatch req e = unplaced _ refl refl
  decide-Ensures (Policy.signed_in rule) req e = ruled-Ensures req rule _ e (unplaced _ refl refl)
  decide-Ensures (Policy.site_admin r) req e =
      when_signed-Ensures req _ e (decide_site_admin-Ensures r)
  decide-Ensures (Policy.daemon_self only) req e =
      when_signed-Ensures req _ e (decide_daemon_self-Ensures only)
  decide-Ensures (Policy.daemon_realm l) req e =
      when_signed-Ensures req _ e decide_daemon_realm-Ensures
  decide-Ensures (Policy.org p) req e =
      when_signed-Ensures req _ e (decide_org-Ensures (first_field req p.from) p.perm)
  decide-Ensures (Policy.scope p) req e =
      ruled-Ensures req p.daemon _ e (decide_scope-Ensures req p (named_realm req p.realm))
  decide-Ensures (Policy.realm p) req e =
      ruled-Ensures req p.daemon _ e (decide_realm-Ensures req p (first_field req p.from))
  decide-Ensures (Policy.on_record p) req e =
      decide_kind-Ensures req p p.kind (first_field req p.from) e
