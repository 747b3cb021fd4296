-- ===== src/RoutePolicy/Decide/Rules.antt =====
-- What a decision ensures of the access that it grants, and the rules for the shapes of the engine's
-- code: tests, loops over realms and daemons, and the marking of a record.
use cliqhub_core.Prelude.{
  String, Bool, true, not, ◌&&◌, false, ◌≡◌, ◌⊎◌, refl, List, [], ◌∷◌, Option, none, some, arith,
  if◌then◌else◌, ltb,
}
use cliqhub_core.Auth.{AuthContext}
use cliqhub_core.RoutePolicy.Policy.{
  Level, RealmInfo, RecordKind, daemon_not_allowed, AccessGrant, AccessStore, DaemonRule,
  EngineOptions, Decision, allowed, denied, is_allowed,
}
use cliqhub_core.RoutePolicy.Standing.{is_daemon, deny, no_access, judge_realm, judge_org}
use cliqhub_core.RoutePolicy.Engine.{with_record, rank_deny, best_after, best_standing}
use cliqhub_core.RoutePolicy.Cases.{daemon_grant, all_daemons, when_rule, has_rule}

abbrev pub Ensures : (AccessGrant → Type 0) → Decision → Type 0
Ensures P (allowed access u) = P access
Ensures P (denied s r a d) = Unit

-- The store returned the realm for some id, or for some slug in an org.
abbrev pub IsStored : AccessStore → RealmInfo → Type 0
IsStored store realm =
    ((id : String) × (store.realm id ≡ some realm))
    ⊎ ((org_id : String) × (slug : String) × (store.realm_by_slug org_id slug ≡ some realm))

-- What each step of the engine grants has the property.
pub record Steps (store : AccessStore) (opts : EngineOptions) (auth : AuthContext)
    (P : AccessGrant → Type 0) : Type 0 where
  pub marked :
      (a : AccessGrant) (kind : RecordKind) (id : String)
      → P a
      → P (record a { on_record = some (kind, id) })
  pub unplaced : (a : AccessGrant) → a.realm_id ≡ none → a.pat_daemon_write ≡ false → P a
  pub own : is_daemon auth ≡ true → P (daemon_grant auth)
  pub pushed :
      is_daemon auth ≡ false
      → opts.allow_pat_daemon_writes ≡ true
      → P (record no_access { pat_daemon_write = true })
  pub on_realm :
      (found : Option RealmInfo) (need : Option Level) (perm : Option String)
      (rule : Option DaemonRule)
      → ((realm : RealmInfo) → found ≡ some realm → IsStored store realm)
      → Ensures P (judge_realm store auth found need perm rule opts)

module _ (P : AccessGrant → Type 0) where
  pub if-Ensures :
      (b : Bool) (x y : Decision) → Ensures P x → Ensures P y → Ensures P (if b then x else y)
  if-Ensures true x y h k = h
  if-Ensures false x y h k = k

  pub with_record-Ensures :
      (d : Decision) (kind : RecordKind) (id : String)
      → ((a : AccessGrant) → P a → P (record a { on_record = some (kind, id) }))
      → Ensures P d
      → Ensures P (with_record d kind id)
  unfolding with_record
  with_record-Ensures (allowed a u) kind id keep h = keep a h
  with_record-Ensures (denied s r a d) kind id keep h = tt

  -- The same, each branch with what its test tells.
  pub if_cases-Ensures :
      (b : Bool) (x y : Decision)
      → (b ≡ true → Ensures P x)
      → (b ≡ false → Ensures P y)
      → Ensures P (if b then x else y)
  if_cases-Ensures true x y h k = h refl
  if_cases-Ensures false x y h k = k refl

  pub best_after-Ensures :
      (judge : String → Decision) (last : Decision) (rids : List String)
      → ((rid : String) → Ensures P (judge rid))
      → Ensures P last
      → Ensures P (best_after judge last rids)
  unfolding best_after
  best_after-Ensures judge last [] each h = h
  best_after-Ensures judge last (rid ∷ rids) each h =
      let last' = if ltb (rank_deny last) (rank_deny (judge rid)) then judge rid else last in
      if-Ensures (is_allowed (judge rid)) (judge rid) (best_after judge last' rids) (each rid) (
        best_after-Ensures judge last' rids each
          (if-Ensures (ltb (rank_deny last) (rank_deny (judge rid))) (judge rid) last (each rid) h))

  pub best_standing-Ensures :
      (judge : String → Decision) (rid : String) (rids : List String)
      → ((r : String) → Ensures P (judge r))
      → Ensures P (best_standing judge rid rids)
  unfolding best_standing
  best_standing-Ensures judge rid rids each =
      if-Ensures (is_allowed (judge rid)) (judge rid) (best_after judge (judge rid) rids) (each rid)
        (best_after-Ensures judge (judge rid) rids each (each rid))

  pub all_daemons-Ensures :
      (judge : String → Decision) (first : Decision) (ids : List String)
      → ((id : String) → Ensures P (judge id))
      → Ensures P first
      → Ensures P (all_daemons judge first ids)
  unfolding all_daemons
  all_daemons-Ensures judge first [] each h = h
  all_daemons-Ensures judge first (id ∷ ids) each h =
      if-Ensures (is_allowed (judge id)) (all_daemons judge first ids) (judge id)
        (all_daemons-Ensures judge first ids each h) (each id)

  pub Ensures-mono :
      (Q : AccessGrant → Type 0) (d : Decision)
      → ((a : AccessGrant) → Q a → P a)
      → Ensures Q d
      → Ensures P d
  Ensures-mono Q (allowed a u) f h = f a h
  Ensures-mono Q (denied s r a d) f h = tt

  pub when_rule-Ensures :
      (auth : AuthContext) (rule : Option DaemonRule) (d : Decision)
      → Ensures P d
      → Ensures P (when_rule auth rule d)
  when_rule-Ensures auth rule d h =
      if-Ensures (is_daemon auth && not (has_rule rule)) (deny 403 daemon_not_allowed) d tt h

-- An access with no realm, that is no push of a user token.
abbrev pub IsUnplaced : AccessGrant → Type 0
IsUnplaced a = (a.realm_id ≡ none) × (a.pat_daemon_write ≡ false)

pub judge_org-IsUnplaced :
    (store : AccessStore) (auth : AuthContext) (org_id : Option String) (perm : String)
    → Ensures IsUnplaced (judge_org store auth org_id perm)
unfolding judge_org
judge_org-IsUnplaced store auth org_id perm = ground arith
