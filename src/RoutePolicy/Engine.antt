-- ===== src/RoutePolicy/Engine.antt =====
-- engine.ts, main entry: `decide`, with a function for each kind of policy that loads something.
use cliqhub_core.Prelude.{
  ℕ, String, List, [], ◌∷◌, Option, none, some, if◌then◌else◌, ltb, eqb, truthy, is_empty,
}
use cliqhub_core.Auth.{AuthContext}
use cliqhub_core.RoutePolicy.Policy.{
  Level, RecordKind, daemon, FieldRef, DaemonRule, RealmInfo, RecordScope, RequestLike, AccessStore,
  Source, not_found_or_hidden, of_level, AccessGrant, Decision, allowed, denied, EngineOptions,
  is_allowed,
}
use cliqhub_core.RoutePolicy.Fields.{read_field, names_slug}
use cliqhub_core.RoutePolicy.Standing.{is_site_admin, no_access, deny_at, allow, judge_realm}

abbrev grant_of : Option AccessGrant → AccessGrant
grant_of none = no_access
grant_of (some access) = access

unfoldable pub with_record : Decision → RecordKind → String → Decision
with_record (allowed access unresolved) kind id =
    allowed (record access { on_record = some (kind, id) }) unresolved
with_record (denied status reason access detail) kind id =
    denied status reason (some (record (grant_of access) { on_record = some (kind, id) })) detail

-- 403 (can see, cannot act) tells more than 404.
unfoldable pub rank_deny : Decision → ℕ
rank_deny (allowed a u) = 99
rank_deny (denied status r a d) = if eqb status 403 then 2 else 1

-- The rest of the loop over the realms of a record, after a refusal.
unfoldable pub best_after : (String → Decision) → Decision → List String → Decision
unfolding rank_deny
best_after judge last [] = last
best_after judge last (rid ∷ rids) =
    let d = judge rid in
    let rest = best_after judge (if ltb (rank_deny last) (rank_deny d) then d else last) rids in
    if is_allowed d then d else rest

-- A record that spans realms: the best standing wins. The first realm always sets `last`.
unfoldable pub best_standing : (String → Decision) → String → List String → Decision
unfolding best_after
best_standing judge rid rids =
    if is_allowed (judge rid) then judge rid else best_after judge (judge rid) rids

-- `realm_ids`, else the one `realm_id` if it is a non-empty text.
abbrev one_realm : Option String → List String
one_realm none = []
one_realm (some rid) = rid ∷ []

abbrev realms_or : Option (List String) → Option String → List String
realms_or none realm_id = one_realm (truthy realm_id)
realms_or (some realm_ids) realm_id = realm_ids

unfoldable pub realms_of : RecordScope → List String
realms_of s = realms_or s.realm_ids s.realm_id

abbrev pub realms_of_option : Option RecordScope → List String
unfolding realms_of
realms_of_option none = []
realms_of_option (some s) = realms_of s

unfoldable pub judge_each :
    AccessStore
    → AuthContext
    → List String
    → String
    → Option Level
    → Option String
    → Option DaemonRule
    → EngineOptions
    → Decision
unfolding judge_realm best_standing
judge_each store auth [] daemon_id need perm rule opts =
    if is_site_admin auth
    then allow (record no_access {
      level = some (of_level Level.admin);
      on_record = some (daemon, daemon_id);
    })
    else deny_at 404 not_found_or_hidden (record no_access { on_record = some (daemon, daemon_id) })
judge_each store auth (rid ∷ rids) daemon_id need perm rule opts =
    with_record
      (best_standing (λ r. judge_realm store auth (store.realm r) need perm rule opts) rid rids)
      daemon daemon_id

unfoldable pub judge_daemon_realms :
    AccessStore
    → RequestLike
    → AuthContext
    → String
    → Option Level
    → Option String
    → Option DaemonRule
    → EngineOptions
    → Decision
unfolding judge_each with_record
judge_daemon_realms store req auth daemon_id need perm rule opts =
    judge_each store auth (realms_of_option (store.record_scope daemon daemon_id req)) daemon_id
      need perm rule opts

unfoldable pub resolve_org_id : AccessStore → FieldRef → String → Option String
unfolding names_slug
resolve_org_id store ref value = if names_slug ref then store.org_id_by_slug value else some value

abbrev slug_to_org : AccessStore → Option String → Option String
slug_to_org store none = none
slug_to_org store (some slug) = if is_empty slug then none else store.org_id_by_slug slug

abbrev or_else : Option String → Option String → Option String
or_else none b = b
or_else (some a) b = some a

abbrev pub realm_in_org : AccessStore → Option String → String → Option RealmInfo
realm_in_org store none slug = none
realm_in_org store (some org_id) slug = store.realm_by_slug org_id slug

-- A realm's slug is unique in its org: the org comes from `body.org_id` or `body.org_slug`.
unfoldable pub resolve_realm : AccessStore → RequestLike → FieldRef → String → Option RealmInfo
unfolding names_slug read_field
resolve_realm store req ref value =
    if names_slug ref
    then realm_in_org store
        (truthy (
          or_else (read_field req (record { where_in = Source.body; key = "org_id" })) (
            slug_to_org store
              (read_field req (record { where_in = Source.body; key = "org_slug" })))))
        value
    else store.realm value
