-- ===== src/RoutePolicy/Decide/Closed.antt =====
-- Who is let in at all: requests with no user, and callers with no standing.
use cliqhub_core.Prelude.{
  String, Bool, true, false, ◌≡◌, refl, ap, Option, none, some, arith, Bool-cases, inl, inr,
  if◌then◌else◌,
}
use cliqhub_core.Json.{get_prop}
use cliqhub_core.Auth.{User, AuthContext}
use cliqhub_core.Auth.Access.{Visibility, TeamAccess, anonymous, can_view_team}
use cliqhub_core.RoutePolicy.Policy.{
  DaemonRule, RecordKind, RecordPolicy, Policy, RequestLike, AccessStore, EngineOptions, Decision,
  is_allowed,
}
use cliqhub_core.RoutePolicy.Fields.{FoundField, first_field, read_field}
use cliqhub_core.RoutePolicy.Standing.{is_daemon}
use cliqhub_core.RoutePolicy.Cases.{when_signed}
use cliqhub_core.RoutePolicy.Decide.{
  decide, is_present, decide_kind, decide_team, decide_named_team, view_team, team_of, context_of,
  installing, daemon_of, text_of, team_or_install,
}

-- The policy that a request comes under, each `by_body` resolved.
abbrev pub effective : RequestLike → Policy → Policy
effective req (Policy.by_body field p q) =
    let present = effective req p in
    let absent = effective req q in if is_present (read_field req field) then present else absent
effective req p = p

if-allowed :
    (b : Bool) (x y : Decision) {p q : Policy} (f : Policy → Decision)
    → x ≡ f p
    → y ≡ f q
    → (if b then x else y) ≡ f (if b then p else q)
if-allowed true x y f h k = h
if-allowed false x y f h k = k

-- Deciding by a policy is deciding by its effective one.
pub decide-effective :
    (p : Policy) (req : RequestLike) (store : AccessStore) (opts : EngineOptions)
    → decide p req store opts ≡ decide (effective req p) req store opts
unfolding decide
decide-effective (Policy.by_body field p q) req store opts =
    if-allowed (is_present (read_field req field)) (decide p req store opts)
      (decide q req store opts) {p = effective req p} {q = effective req q}
      (λ r. decide r req store opts) (decide-effective p req store opts)
      (decide-effective q req store opts)
decide-effective _ req store opts = refl

abbrev pub has_user : Option AuthContext → Option User
has_user none = none
has_user (some auth) = auth.user

abbrev pub comes_by_daemon : Option AuthContext → Bool
comes_by_daemon none = false
comes_by_daemon (some auth) = is_daemon auth

-- The routes that a request with no user may pass: those with no check, and a public team.
abbrev pub IsOpen : AccessStore → RequestLike → Policy → Type 0
IsOpen store req Policy.public = Unit
IsOpen store req Policy.bff_only = Unit
IsOpen store req Policy.a2a_dispatch = Unit
IsOpen store req (Policy.on_record p) =
    (p.kind ≡ RecordKind.team)
    × ((f : FoundField) × (first_field req p.from ≡ some f)
        × ((t : TeamAccess) × (team_of (store.record_scope RecordKind.team f.value req) ≡ some t)
            × (t.visibility ≡ Visibility.public)))
IsOpen store req _ = ⊥

when_signed-none :
    (o : Option AuthContext) (rest : AuthContext → Decision)
    → has_user o ≡ none
    → is_allowed (when_signed o rest) ≡ false
when_signed-none none rest h = refl
when_signed-none (some auth) rest h = ground arith

daemon_of-none : (o : Option AuthContext) → comes_by_daemon o ≡ false → daemon_of o ≡ none
daemon_of-none none h = refl
daemon_of-none (some auth) h = ground arith

view_team-unsigned :
    (auth : AuthContext) (id : String) (t : Option TeamAccess)
    → auth.user ≡ none
    → is_allowed (view_team auth id t) ≡ true
    → (team : TeamAccess) × (t ≡ some team) × (team.visibility ≡ Visibility.public)
unfolding view_team can_view_team
view_team-unsigned auth id none n h = cc
view_team-unsigned auth id (some t) n h = (t, refl, ground arith)

context_of-user : (o : Option AuthContext) → has_user o ≡ none → (context_of o).user ≡ none
unfolding anonymous
context_of-user none h = refl
context_of-user (some auth) h = h

module _ (store : AccessStore) (req : RequestLike) (opts : EngineOptions)
    (nobody : has_user req.auth ≡ none) (no_daemon : comes_by_daemon req.auth ≡ false) where
  decide_named_team-open :
      (f : Option FoundField)
      → is_allowed (decide_named_team store req f) ≡ true
      → (g : FoundField) × (f ≡ some g)
        × ((t : TeamAccess) × (team_of (store.record_scope RecordKind.team g.value req) ≡ some t)
            × (t.visibility ≡ Visibility.public))
  unfolding decide_named_team
  decide_named_team-open none h = cc (when_signed-none req.auth _ nobody, h)
  decide_named_team-open (some f) h = (
    f,
    refl,
    view_team-unsigned (context_of req.auth) f.value _ (context_of-user req.auth nobody) h,
  )

  decide_team-named :
      (f : Option FoundField) (rule : Option DaemonRule)
      → decide_team store req f rule ≡ decide_named_team store req f
  unfolding decide_team
  decide_team-named f rule =
      ap
        (λ o.
          team_or_install store req f (installing o rule (text_of (get_prop req.body "daemon_id"))))
        (daemon_of-none req.auth no_daemon)

  decide_kind-open :
      (p : RecordPolicy) (kind : RecordKind) (f : Option FoundField)
      → is_allowed (decide_kind store req opts p kind f) ≡ true
      → (kind ≡ RecordKind.team) × (is_allowed (decide_named_team store req f) ≡ true)
  unfolding decide_kind
  decide_kind-open p RecordKind.team f h = (refl, rw (decide_team-named f p.daemon) at h)
  decide_kind-open p kind f h = cc (when_signed-none req.auth _ nobody, h)

  -- A request with no user and no daemon token is let through only on a route whose effective policy
  -- has no check (public, called by the front end, or signed by a dispatch key), or that reads a team
  -- which is there and public.
  pub decide-IsOpen :
      (p : Policy)
      → is_allowed (decide p req store opts) ≡ true
      → IsOpen store req (effective req p)
  unfolding decide
  decide-IsOpen (Policy.by_body field p q) h =
      elim (Bool-cases (is_present (read_field req field))) [
        | inl t ↦ rw t (decide-IsOpen p (rw t at h))
        | inr f ↦ rw f (decide-IsOpen q (rw f at h))
      ]
  decide-IsOpen Policy.public h = tt
  decide-IsOpen Policy.bff_only h = tt
  decide-IsOpen Policy.a2a_dispatch h = tt
  decide-IsOpen (Policy.on_record p) h =
      let (team, named) = decide_kind-open p p.kind (first_field req p.from) h in
      (team, decide_named_team-open (first_field req p.from) named)
  decide-IsOpen _ h = cc (when_signed-none req.auth _ nobody, h)
