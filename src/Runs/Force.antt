-- ===== src/Runs/Force.antt =====
-- When a run looks stuck: `_load_force_terminate_status` of run.service.ts, which the page shows, and
-- `_force_terminate_eligibility` of dispatch.service.ts, which a cancel asks.
use text.Mathlib.Text.{◌==◌}
use Prim.Native.Nat.{min}
use cliqhub_core.Prelude.{
  ℕ, ◌-◌, String, Bool, true, false, not, ◌&&◌, ◌||◌, List, [], ◌∷◌, Option, none, some, filter,
  ltb, leb, eqb, is_none, truthy, if◌then◌else◌,
}
use cliqhub_core.Json.{get_prop}
use cliqhub_core.Outbox.{Entry, Run}
use cliqhub_core.Outbox.Runs.{is_live}
use cliqhub_core.Outbox.Delivery.{field_text, is_text}
use cliqhub_core.Runs.{Daemon}

pub data Trigger : Type 0 where
  stale_cancel daemon_offline lease_expired : Trigger

pub data ForceStatus : Type 0 where
  empty_status : ForceStatus
  already_terminated : (at : ℕ) (by reason : Option String) → ForceStatus
  eligible_status : Trigger → ForceStatus
  blocked_status : ForceStatus

-- The condition of the query for cancels that wait for their acknowledgment.
abbrev pub is_waiting_cancel : String → Entry → Bool
is_waiting_cancel id e =
    e.endpoint == "/v1/cancel"
    && is_none e.acked_at
    && ltb e.attempts e.max_attempts
    && is_text (field_text (get_prop e.payload "run_id")) id

abbrev earlier : ℕ → Option ℕ → ℕ
earlier t none = t
earlier t (some u) = min t u

-- `MIN("created_at")`.
abbrev pub oldest : List Entry → Option ℕ
oldest [] = none
oldest (e ∷ es) = some (earlier e.created_at (oldest es))

abbrev is_old : ℕ → Option ℕ → Bool
is_old now none = false
is_old now (some t) = leb 300000 (now - t)

unfoldable pub has_stale_cancel : ℕ → String → List Entry → Bool
unfolding get_prop
has_stale_cancel now id outbox = is_old now (oldest (filter (is_waiting_cancel id) outbox))

abbrev pub find_daemon : String → List Daemon → Option Daemon
find_daemon id [] = none
find_daemon id (d ∷ ds) = let rest = find_daemon id ds in if d.id == id then some d else rest

abbrev pub or_zero : Option ℕ → ℕ
or_zero none = 0
or_zero (some t) = t

-- No such daemon, no heartbeat (a heartbeat of 0 counts as none), or none for 90 seconds.
abbrev pub is_gone : ℕ → Option Daemon → Bool
is_gone now none = true
is_gone now (some d) =
    eqb (or_zero d.last_heartbeat) 0 || leb 90000 (now - or_zero d.last_heartbeat)

abbrev pub is_daemon_gone : ℕ → Option String → List Daemon → Bool
is_daemon_gone now none ds = false
is_daemon_gone now (some id) ds = is_gone now (find_daemon id ds)

abbrev pub is_lease_over : ℕ → Option ℕ → Bool
is_lease_over now lease = ltb 0 (or_zero lease) && ltb (or_zero lease) now

-- `_force_terminate_eligibility`: the trigger, where there is one.
unfoldable pub force_terminate_eligibility : ℕ → List Daemon → List Entry → Run → Option Trigger
unfolding has_stale_cancel
force_terminate_eligibility now daemons outbox r =
    if has_stale_cancel now r.run_id outbox
    then some stale_cancel
    else if is_daemon_gone now (truthy r.daemon_id) daemons
    then some daemon_offline
    else if is_lease_over now r.lease_expires_at
    then some lease_expired
    else none

abbrev pub has_daemon : Option String → Bool
has_daemon none = false
has_daemon (some id) = true

unfoldable pub live_status : ℕ → List Daemon → List Entry → Run → ForceStatus
unfolding has_stale_cancel
live_status now daemons outbox r =
    if not (is_live r)
    then empty_status
    else if has_daemon (truthy r.daemon_id) && has_stale_cancel now r.run_id outbox
    then eligible_status stale_cancel
    else if is_daemon_gone now (truthy r.daemon_id) daemons
    then eligible_status daemon_offline
    else if is_lease_over now r.lease_expires_at
    then eligible_status lease_expired
    else blocked_status

-- `_load_force_terminate_status`, of the run's row.
unfoldable pub load_force_terminate_status : ℕ → List Daemon → List Entry → Run → ForceStatus
unfolding live_status
load_force_terminate_status now daemons outbox r = elim (r.force_terminated_at) [
  | some at ↦ already_terminated at r.force_terminated_by_user_id r.force_terminated_reason
  | none ↦ live_status now daemons outbox r
]
