-- ===== src/Runs/Cancel.antt =====
-- dispatch.service.ts, `DispatchService.cancel_run`, of a run whose daemon has been looked up.
use text.Mathlib.Text.{◌==◌}
use cliqhub_core.Prelude.{
  ℕ, ◌-◌, String, Bool, not, ◌&&◌, ◌||◌, List, [], ◌∷◌, ◌++◌, Option, none, some, ltb, eqb, is_none,
  truthy, is_empty, concat, if◌then◌else◌, update_where,
}
use cliqhub_core.Json.{field, str, end, get_prop}
use cliqhub_core.Outbox.{Entry, Run, hugs_cancelled, Store}
use cliqhub_core.Outbox.Runs.{is_live}
use cliqhub_core.Outbox.Delivery.{command_outbox_enqueue, field_text, is_text, is_run}
use cliqhub_core.Runs.{Daemon}
use cliqhub_core.Runs.Force.{
  Trigger, stale_cancel, daemon_offline, lease_expired, force_terminate_eligibility, find_daemon,
  or_zero,
}

-- `_check_daemon_reachable`: the daemon, where it can take a command now.
abbrev pub fresh_daemon : ℕ → Daemon → Option Daemon
fresh_daemon now d =
    if eqb (or_zero d.last_heartbeat) 0 || ltb 86400000 (now - or_zero d.last_heartbeat)
    then none
    else if ltb 60000 (now - or_zero d.last_heartbeat)
    then none
    else some d

abbrev pub fresh_option : ℕ → Option Daemon → Option Daemon
fresh_option now none = none
fresh_option now (some d) = fresh_daemon now d

unfoldable pub check_daemon_reachable : ℕ → Option String → List Daemon → Option Daemon
check_daemon_reachable now none ds = none
check_daemon_reachable now (some id) ds = fresh_option now (find_daemon id ds)

abbrev trigger_text : Trigger → String
trigger_text stale_cancel = "stale_cancel"
trigger_text daemon_offline = "daemon_offline"
trigger_text lease_expired = "lease_expired"

abbrev unresponsive : String → Trigger → String
unresponsive user t =
    concat "cancelled by user "
      (concat user (concat " — daemon unresponsive (" (concat (trigger_text t) ")")))

abbrev pub cancel_message : String → Option String → Trigger → String
cancel_message user none t = unresponsive user t
cancel_message user (some reason) t =
    if is_empty reason
    then unresponsive user t
    else concat "cancelled by user " (concat user (concat " — " reason))

abbrev pub terminated_run : ℕ → String → Option String → Trigger → Run → Run
terminated_run now user reason t r = record r {
  state = "cancelled";
  completed_at = some now;
  lease_expires_at = none;
  run_error = some (cancel_message user reason t);
  force_terminated_at = some now;
  force_terminated_by_user_id = some user;
  force_terminated_reason = reason;
}

abbrev pub is_unacked_cancel : String → Entry → Bool
is_unacked_cancel id e =
    e.endpoint == "/v1/cancel"
    && is_none e.acked_at
    && is_text (field_text (get_prop e.payload "run_id")) id

abbrev noted : Option String → String
noted none = "superseded by Hub cancel (daemon unreachable)"
noted (some old) = concat old " | superseded by Hub cancel (daemon unreachable)"

abbrev pub superseded_cancel : Entry → Entry
superseded_cancel e = record e { attempts = e.max_attempts; error = some (noted e.error) }

unfoldable pub hub_side_cancel : ℕ → String → String → Option String → Trigger → Store → Store
unfolding update_where get_prop
hub_side_cancel now id user reason t s = record s {
  runs = update_where (is_run id) (terminated_run now user reason t) s.runs;
  outbox = update_where (is_unacked_cancel id) superseded_cancel s.outbox;
  events = s.events ++ (hugs_cancelled id ∷ []);
}

pub data CancelMode : Type 0 where
  queued hub_terminated already_terminal not_found forbidden : CancelMode

-- The clock where the eligibility, the daemon and the write read it, and the id of a command.
pub record CancelTimes : Type 0 where
  pub judged_at : ℕ
  pub reached_at : ℕ
  pub written_at : ℕ
  pub tx_id : String

abbrev pub find_run : String → List Run → Option Run
find_run id [] = none
find_run id (r ∷ rs) = let rest = find_run id rs in if r.run_id == id then some r else rest

-- Both answers of the source are asked for, then one of the two ways is taken.
unfoldable pub cancel_by :
    CancelTimes
    → String
    → String
    → Option String
    → Option Trigger
    → Option Daemon
    → Store
    → Store × CancelMode
unfolding hub_side_cancel command_outbox_enqueue
cancel_by at id user reason (some t) daemon s =
    (hub_side_cancel at.written_at id user reason t s, hub_terminated)
cancel_by at id user reason none none s =
    (hub_side_cancel at.written_at id user reason daemon_offline s, hub_terminated)
cancel_by at id user reason none (some d) s =
    let t =
      command_outbox_enqueue at.tx_id at.written_at d.id "/v1/cancel" (field "run_id" (str id) end)
        none none s in
    (record t { events = t.events ++ (hugs_cancelled id ∷ []) }, queued)

unfoldable pub cancel_found :
    CancelTimes
    → String
    → String
    → Option String
    → List Daemon
    → Option Run
    → Store
    → Store × CancelMode
unfolding cancel_by force_terminate_eligibility check_daemon_reachable
cancel_found at id user reason daemons none s = (s, not_found)
cancel_found at id user reason daemons (some r) s =
    if not (is_empty r.state) && not (is_live r)
    then (s, already_terminal)
    else cancel_by at id user reason (force_terminate_eligibility at.judged_at daemons s.outbox r)
        (check_daemon_reachable at.reached_at (truthy r.daemon_id) daemons) s

unfoldable pub cancel_run :
    CancelTimes → String → Option String → Option String → List Daemon → Store → Store × CancelMode
unfolding cancel_found
cancel_run at id none reason daemons s = (s, forbidden)
cancel_run at id (some user) reason daemons s =
    if is_empty user
    then (s, forbidden)
    else cancel_found at id user reason daemons (find_run id s.runs) s
