-- ===== src/Outbox.antt =====
-- src/services/command_outbox.service.ts: the durable delivery of commands from the hub to daemons.
-- The rows of the two tables that it reads and changes are lists, and an SQL statement is a function
-- on the list of its table. A statement is atomic; what happens between two of them is explicit in
-- the order of the operations.
pub mod Reply
pub mod Runs
pub mod Delivery
pub mod Ack
pub mod Sweep
pub mod Ended
pub mod Rows
pub mod Tries
pub mod Bounded
pub mod GivesUp
pub mod Batch
pub mod Acked
pub mod Enqueued
pub mod Tests
use cliqhub_core.Prelude.{ℕ, String, Bool, List, [], ◌∷◌, Option, if◌then◌else◌}
use cliqhub_core.Json.{Json}

pub data AckStatus : Type 0 where
  ok error timeout : AckStatus

-- A row of command_outbox.
pub record Entry : Type 0 where
  pub tx_id : String
  pub daemon_id : String
  pub endpoint : String
  pub payload : Json
  pub attempts : ℕ
  pub max_attempts : ℕ
  pub created_at : ℕ
  pub deliver_until : Option ℕ
  pub delivered_at : Option ℕ
  pub acked_at : Option ℕ
  pub ack_status : Option AckStatus
  pub ack_data : Option Json
  pub ack_error : Option String
  pub error : Option String

-- The columns of team_runs that a run's state is about.
pub record Run : Type 0 where
  pub run_id : String
  pub daemon_id : Option String
  pub state : String
  pub completed_at : Option ℕ
  pub run_error : Option String
  pub lease_expires_at : Option ℕ
  pub state_lost_at : Option ℕ
  pub force_terminated_at : Option ℕ
  pub force_terminated_by_user_id : Option String
  pub force_terminated_reason : Option String

-- What a change of a run makes other parts do: the lifecycle events, and the end of its open hugs.
-- A lifecycle event stands for the call of `_emit_lifecycle`, which hands it on only for a run that has a
-- realm and a daemon; `run_ended` is the event `run.` with the state that the run ended in.
pub data Event : Type 0 where
  run_started : (run_id : String) → Event
  run_ended : (run_id state : String) (error : Option String) → Event
  run_failed : (run_id : String) (error : String) → Event
  phase_resumed : (run_id : String) → Event
  hugs_cancelled : (run_id : String) → Event

pub record Store : Type 0 where
  pub outbox : List Entry
  pub runs : List Run
  pub events : List Event
