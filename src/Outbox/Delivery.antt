-- ===== src/Outbox/Delivery.antt =====
-- command_outbox.service.ts, the queue and the delivery worker. The clock is read once where the
-- source compares it with the backoff and once where it writes the outcome.
use text.Mathlib.Text.{◌==◌}
use Prim.Native.Nat.{min, zero, suc}
use cliqhub_core.Prelude.{
  ℕ, ◌+◌, ◌-◌, ◌*◌, ◌^◌, String, Bool, true, false, not, ◌&&◌, ◌||◌, List, [], ◌∷◌, ◌++◌, Option,
  none, some, if◌then◌else◌, concat, ltb, leb, is_none, filter,
}
use cliqhub_core.Json.{Json, Fields, str, num, bool, set_field, obj, get_prop}
use cliqhub_core.Outbox.{Entry, Run, Store}
use cliqhub_core.Prelude.{update_where}
use cliqhub_core.Outbox.Reply.{
  Reply, daemon_failure_message, is_daemon_run_not_found, is_retryable_daemon_status,
}
use cliqhub_core.Outbox.Runs.{fail_refused_execute, is_live, run_id_of}

abbrev pub max_or_default : Option ℕ → ℕ
max_or_default none = 5
max_or_default (some n) = n

-- `transaction` decides only when the row is seen; the caller's `tx_id` is `randomUUID()`.
unfoldable pub command_outbox_enqueue :
    (tx_id : String) (now : ℕ) (daemon_id endpoint : String) (payload : Fields)
    (max_attempts deliver_until : Option ℕ)
    → Store
    → Store
command_outbox_enqueue tx_id now daemon_id endpoint payload max_attempts deliver_until s =
    record s {
      outbox =
          s.outbox
          ++ record {
            tx_id = tx_id;
            daemon_id = daemon_id;
            endpoint = endpoint;
            payload = obj (set_field payload "tx_id" (str tx_id));
            attempts = 0;
            max_attempts = max_or_default max_attempts;
            created_at = now;
            deliver_until = deliver_until;
            delivered_at = none;
            acked_at = none;
            ack_status = none;
            ack_data = none;
            ack_error = none;
            error = none;
          }
            ∷ [];
    }

abbrev pub is_after : Option ℕ → ℕ → Bool
is_after none now = false
is_after (some until) now = ltb now until

-- The condition of the poll's query.
abbrev pub is_pending : ℕ → Entry → Bool
is_pending now e =
    is_none e.delivered_at && (ltb e.attempts e.max_attempts || is_after e.deliver_until now)

-- `ORDER BY created_at ASC LIMIT n`; rows of the same age keep the order of the table.
unfoldable pub insert_by_age : Entry → List Entry → List Entry
insert_by_age e [] = e ∷ []
insert_by_age e (x ∷ xs) =
    let rest = insert_by_age e xs in if leb e.created_at x.created_at then e ∷ x ∷ xs else x ∷ rest

unfoldable pub by_age : List Entry → List Entry
unfolding insert_by_age
by_age [] = []
by_age (e ∷ es) = insert_by_age e (by_age es)

unfoldable pub limit : ℕ → List Entry → List Entry
limit zero es = []
limit (suc n) [] = []
limit (suc n) (e ∷ es) = e ∷ limit n es

unfoldable pub pending_batch : ℕ → List Entry → List Entry
unfolding limit by_age
pending_batch now rows = limit 20 (by_age (filter (is_pending now) rows))

unfoldable pub backoff_ms : Option ℕ → ℕ → ℕ
backoff_ms none attempts = 2000 * 2 ^ (attempts - 1) * attempts
backoff_ms (some until) attempts = min (2000 * 2 ^ min (attempts - 1) 5) 60000

unfoldable pub is_backing_off : ℕ → Entry → Bool
unfolding backoff_ms
is_backing_off now e =
    ltb 0 e.attempts && ltb now (e.created_at + backoff_ms e.deliver_until e.attempts)

abbrev pub has_tx : String → Entry → Bool
has_tx tx_id e = e.tx_id == tx_id

abbrev pub on_outbox : (List Entry → List Entry) → Store → Store
on_outbox f s = record s { outbox = f s.outbox }

abbrev pub bumped : ℕ → Entry → Entry
bumped now e = record e { created_at = now }

abbrev pub counted : ℕ → String → Entry → Entry
counted now reason e = record e { attempts = e.attempts + 1; error = some reason; created_at = now }

abbrev pub exhausted : String → Entry → Entry
exhausted reason e = record e {
  attempts = e.max_attempts;
  deliver_until = none;
  error = some reason;
}

abbrev pub arrived : ℕ → Entry → Entry
arrived now e = record e { delivered_at = some now; attempts = e.attempts + 1; error = none }

unfoldable pub increment_attempts : String → ℕ → String → Store → Store
unfolding update_where
increment_attempts tx_id now reason s =
    on_outbox (update_where (has_tx tx_id) (counted now reason)) s

unfoldable pub bump_created_at : String → ℕ → Store → Store
unfolding update_where
bump_created_at tx_id now s = on_outbox (update_where (has_tx tx_id) (bumped now)) s

unfoldable pub exhaust : String → String → Store → Store
unfolding update_where
exhaust tx_id reason s = on_outbox (update_where (has_tx tx_id) (exhausted reason)) s

unfoldable pub mark_delivered : String → ℕ → Store → Store
unfolding update_where
mark_delivered tx_id now s = on_outbox (update_where (has_tx tx_id) (arrived now)) s

-- No try is left: counted from the row as it was read.
unfoldable pub out_of_tries : ℕ → Entry → Bool
out_of_tries now e = leb e.max_attempts (e.attempts + 1) && not (is_after e.deliver_until now)

unfoldable pub note_failure : ℕ → Entry → String → Store → Store
unfolding increment_attempts out_of_tries fail_refused_execute
note_failure now e reason s =
    let t = increment_attempts e.tx_id now reason s in
    if out_of_tries now e then fail_refused_execute now e reason t else t

abbrev orphan_message : String
orphan_message =
    "Daemon lost this run's local state on restart. The phase records are no longer available on any daemon. Start a new run with the same inputs."

abbrev or_now : Option ℕ → ℕ → Option ℕ
or_now none now = some now
or_now (some t) now = some t

abbrev pub is_run : String → Run → Bool
is_run id r = r.run_id == id

abbrev pub orphaned_run : ℕ → Run → Run
orphaned_run now r = record r {
  state_lost_at = or_now r.state_lost_at now;
  state = if is_live r then "crashed" else r.state;
  completed_at = if is_live r then some now else r.completed_at;
  run_error = some orphan_message;
  lease_expires_at = none;
}

-- `payload ->> 'run_id'`; the text of an array or an object is never a run's id.
abbrev pub field_text : Json → Option String
field_text (str v) = some v
field_text (num v) = some v
field_text (bool true) = some "true"
field_text (bool false) = some "false"
field_text _ = none

abbrev pub is_text : Option String → String → Bool
is_text none id = false
is_text (some v) id = v == id

unfoldable pub same_run : String → String → Entry → Bool
unfolding get_prop
same_run tx_id id e =
    is_none e.acked_at
    && is_none e.delivered_at
    && not (e.tx_id == tx_id)
    && is_text (field_text (get_prop e.payload "run_id")) id

abbrev superseding : Option String → String
superseding none = "superseded by orphaned-run detection"
superseding (some reason) = concat reason " | superseded by orphaned-run detection"

abbrev pub superseded : Entry → Entry
superseded e = record e {
  attempts = e.max_attempts;
  deliver_until = none;
  error = some (superseding e.error);
}

unfoldable pub orphan_named : ℕ → String → Option String → Store → Store
unfolding update_where same_run
orphan_named now tx_id none s = s
orphan_named now tx_id (some id) s = record s {
  runs = update_where (is_run id) (orphaned_run now) s.runs;
  outbox = update_where (same_run tx_id id) superseded s.outbox;
}

-- The line that goes to the run's log is left out.
unfoldable pub handle_daemon_run_not_found : ℕ → Entry → Store → Store
unfolding orphan_named run_id_of
handle_daemon_run_not_found now e s = orphan_named now e.tx_id (run_id_of e.payload) s

-- What the worker meets: a daemon with no public URL (or no such daemon), an answer, or an exception
-- of the lookup or the call.
pub data Contact : Type 0 where
  no_url : Contact
  replied : Reply → Contact
  threw : (message : String) → Contact

pub record Delivery : Type 0 where
  pub checked_at : ℕ
  pub contact : Contact
  pub settled_at : ℕ

abbrev pub is_success : ℕ → Bool
is_success status = leb 200 status && ltb status 300

unfoldable pub settle_reply : ℕ → Entry → Reply → Store → Store
unfolding mark_delivered is_daemon_run_not_found handle_daemon_run_not_found exhaust note_failure
    is_retryable_daemon_status fail_refused_execute daemon_failure_message
settle_reply now e r s =
    if is_success r.status
    then mark_delivered e.tx_id now s
    else if is_daemon_run_not_found r.status r.body
    then exhaust e.tx_id (daemon_failure_message r) (handle_daemon_run_not_found now e s)
    else if is_retryable_daemon_status r.status
    then note_failure now e (daemon_failure_message r) s
    else fail_refused_execute now e (daemon_failure_message r)
        (exhaust e.tx_id (daemon_failure_message r) s)

abbrev pub wait_or_count : ℕ → Entry → Option ℕ → Store → Store
wait_or_count now e (some until) s = bump_created_at e.tx_id now s
wait_or_count now e none s = note_failure now e "no_public_url" s

unfoldable pub settle : ℕ → Entry → Contact → Store → Store
unfolding bump_created_at note_failure settle_reply
settle now e no_url s = wait_or_count now e e.deliver_until s
settle now e (replied r) s = settle_reply now e r s
settle now e (threw message) s = note_failure now e message s

-- `e` is the row as the poll read it.
unfoldable pub deliver_entry : Delivery → Entry → Store → Store
unfolding is_backing_off settle
deliver_entry d e s = if is_backing_off d.checked_at e then s else settle d.settled_at e d.contact s

unfoldable pub deliver_all : (Entry → Delivery) → List Entry → Store → Store
unfolding deliver_entry
deliver_all met [] s = s
deliver_all met (e ∷ es) s = deliver_all met es (deliver_entry (met e) e s)

-- The deliveries of a cycle run side by side; here one settles after the other, in the order of the
-- batch, each from the row that the query had read.
unfoldable pub poll_cycle : ℕ → (Entry → Delivery) → Store → Store
unfolding pending_batch deliver_all
poll_cycle now met s = deliver_all met (pending_batch now s.outbox) s
