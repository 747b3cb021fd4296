-- ===== src/Hugs.antt =====
-- src/services/hugs.service.ts: requests for input from people, which a run's phase opens, people answer,
-- and the requester closes. The tables are lists. A transaction is one step; what the source does
-- before it opens one, it does on a store that may be older.
pub mod Remind
pub mod Parts
pub mod Files
pub mod Answer
pub mod Ended
pub mod Opened
pub mod Create
pub mod Creates
pub mod Placed
pub mod Outcome
pub mod Retried
pub mod CatchUp
pub mod Rules
pub mod Told
pub mod Answered
pub mod Ending
pub mod Steps
pub mod Numbered
pub mod Settled
pub mod Final
pub mod Accepted
pub mod Commanded
pub mod Reminded
pub mod CaughtUp
pub mod Over
pub mod Swept
pub mod Tests
pub mod CreateTests
use text.Mathlib.Text.{◌==◌}
use cliqhub_core.Prelude.{
  ℕ, String, Bool, true, false, List, [], ◌∷◌, Option, none, some, if◌then◌else◌,
}
use cliqhub_core.Json.{Json, Fields}
use cliqhub_core.Outbox.{Store}

pub data HugStatus : Type 0 where
  open_hug closed expired cancelled : HugStatus

pub data HugEventType : Type 0 where
  response expired cancelled : HugEventType

pub record Reminders : Type 0 where
  pub every_min : Option ℕ
  pub at_min : List ℕ

pub record HugNotSentTo : Type 0 where
  pub user_id : String
  pub name : String
  pub channel : String

pub record Hug : Type 0 where
  pub id : String
  pub run_id : String
  pub phase : String
  pub iteration : ℕ
  pub daemon_id : String
  pub realm_id : String
  pub org_id : String
  pub title : String
  pub template : String
  pub template_version : ℕ
  pub params : Json
  pub channels : List String
  pub status : HugStatus
  pub outcome : Option String
  pub expires_at : ℕ
  pub reminders : Option Reminders
  pub next_remind_at : Option ℕ
  pub last_reminded_at : Option ℕ
  pub last_seq : ℕ
  pub created_at : ℕ
  pub closed_at : Option ℕ
  pub not_sent_to : List HugNotSentTo

pub record HugDelivery : Type 0 where
  pub hug_id : String
  pub channel : String
  pub channel_id : String
  pub user_id : Option String

pub record HugResponse : Type 0 where
  pub id : String
  pub hug_id : String
  pub responder_user_id : String
  pub via_channels : List String
  pub values : Fields
  pub seq : ℕ
  pub created_at : ℕ
  pub updated_at : ℕ

pub record HugEventRow : Type 0 where
  pub hug_id : String
  pub seq : ℕ
  pub type_of : HugEventType
  pub payload : Fields
  pub created_at : ℕ

pub record StoredArtifact : Type 0 where
  pub id : String
  pub hug_id : Option String
  pub hug_requested_input : Option String
  pub uploaded_by : Option String
  pub name : String
  pub size_bytes : ℕ
  pub mime_type : String
  pub sha256 : Option String
  pub run_id : Option String
  pub status : String

-- What is sent to people through channels, and the events for admins.
pub data NoticeType : Type 0 where
  opened responded closed expired reminded unknown_channel no_access : NoticeType

pub record Notice : Type 0 where
  pub type_of : NoticeType
  pub about : String
  pub channel_ids : List String
  pub detail : Option String

pub record HugStore : Type 0 where
  pub hugs : List Hug
  pub deliveries : List HugDelivery
  pub responses : List HugResponse
  pub hug_events : List HugEventRow
  pub artifacts : List StoredArtifact
  pub notices : List Notice
  pub queue : Store

pub data HugError : Type 0 where
  not_found forbidden gone conflict invalid_values file_invalid unknown_template : HugError
  internal invalid_hug invalid_params no_one_can_answer : HugError

pub data HugResult {ℓ} (A : Type ℓ) : Type ℓ where
  done : A → HugResult A
  refused : HugError → HugResult A

infixl 5 ◌>>=◌
abbrev pub ◌>>=◌ {ℓ κ} : {A : Type ℓ} {B : Type κ} → HugResult A → (A → HugResult B) → HugResult B
done a >>= f = f a
refused e >>= f = refused e

abbrev pub or_refuse {ℓ} : {A : Type ℓ} → Option A → HugError → HugResult A
or_refuse (some a) e = done a
or_refuse none e = refused e

abbrev pub is_open : HugStatus → Bool
is_open open_hug = true
is_open _ = false

abbrev pub find_hug : String → List Hug → Option Hug
find_hug id [] = none
find_hug id (h ∷ hs) = let rest = find_hug id hs in if h.id == id then some h else rest

-- A file input that the template asks for.
pub record RequestedInput : Type 0 where
  pub name : String
  pub is_file : Bool
  pub multiple : Bool
  pub max_bytes : Option ℕ

pub data CheckedAnswer : Type 0 where
  accepted : Fields → CheckedAnswer
  problems : String → CheckedAnswer

pub record Person : Type 0 where
  pub username : Option String
  pub display_name : Option String

-- What hugs use of the template library of `@getcliqio/cliq-sdk` and of the tables of users and rights,
-- as of one call.
pub record HugContext : Type 0 where
  pub can_view_runs : String → String → Bool
  pub has_template : String → ℕ → Bool
  pub check_answer : String → ℕ → Json → Json → CheckedAnswer
  pub inputs_of : String → ℕ → Json → List RequestedInput
  pub person : String → Option Person
