-- ===== src/Outbox/Ack.antt =====
-- src/controllers/command_ack_controller.ts: a daemon acknowledges a command.
use text.Mathlib.Text.{◌==◌}
use cliqhub_core.Prelude.{
  ℕ, String, Bool, false, not, ◌&&◌, List, [], ◌∷◌, Option, none, some, if◌then◌else◌, eqb, is_none,
}
use cliqhub_core.Json.{Json}
use cliqhub_core.Outbox.{Entry, AckStatus, Store}
use cliqhub_core.Prelude.{update_where}
use cliqhub_core.Outbox.Delivery.{on_outbox}
use cliqhub_core.Outbox.Runs.{fail_refused_execute}

pub data Reported : Type 0 where
  ok error : Reported

-- The body after its schema; the transaction id of the message itself is not read here.
pub record AckBody : Type 0 where
  pub command_tx_id : String
  pub daemon_id : String
  pub status : Reported
  pub data_sent : Option Json
  pub error : Option String

pub data AckResult : Type 0 where
  done : AckResult
  no_realm not_in_realm not_found : AckResult

abbrev pub find_tx : String → List Entry → Option Entry
find_tx tx_id [] = none
find_tx tx_id (e ∷ es) = let rest = find_tx tx_id es in if e.tx_id == tx_id then some e else rest

-- `if (command.acked_at)`: the time 0 counts as no time.
abbrev pub is_acked : Option ℕ → Bool
is_acked none = false
is_acked (some t) = not (eqb t 0)

abbrev status_of : Reported → AckStatus
status_of ok = AckStatus.ok
status_of error = AckStatus.error

abbrev pub acked : ℕ → AckBody → Entry → Entry
acked now b e = record e {
  acked_at = some now;
  ack_status = some (status_of b.status);
  ack_data = b.data_sent;
  ack_error = b.error;
}

abbrev pub unacked_tx : String → Entry → Bool
unacked_tx tx_id e = e.tx_id == tx_id && is_none e.acked_at

abbrev reason_of : Option String → String
reason_of none = "refused"
reason_of (some r) = r

abbrev pub after_ack : ℕ → AckBody → Reported → Entry → Store → Store
after_ack now b ok e s = s
after_ack now b error e s = fail_refused_execute now e (reason_of b.error) s

unfoldable pub record_ack : ℕ → AckBody → Option Entry → Store → Store × AckResult
unfolding update_where fail_refused_execute
record_ack now b none s = (s, done)
record_ack now b (some e) s =
    if e.daemon_id == b.daemon_id
    then if is_acked e.acked_at then (s, done) else (
      after_ack now b b.status e
          (on_outbox (update_where (unacked_tx b.command_tx_id) (acked now b)) s),
      done,
    )
    else (s, not_found)

-- `realm_id` is the token's, `in_realm` the answer of `RealmService.assert_daemon_in_realm`.
unfoldable pub ack_command :
    (now : ℕ) (realm_id : Option String) (in_realm : String → String → Bool)
    → AckBody
    → Store
    → Store × AckResult
unfolding record_ack
ack_command now none in_realm b s = (s, no_realm)
ack_command now (some realm_id) in_realm b s =
    if in_realm realm_id b.daemon_id
    then record_ack now b (find_tx b.command_tx_id s.outbox) s
    else (s, not_in_realm)
