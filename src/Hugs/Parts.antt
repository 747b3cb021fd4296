-- ===== src/Hugs/Parts.antt =====
-- hugs.service.ts, what the operations share: the test for an answer, event numbers, the delivery to
-- the daemon, the notice to people.
use text.Mathlib.Text.{◌==◌}
use Prim.Native.Nat.{max}
use cliqhub_core.Prelude.{
  ℕ, ◌+◌, String, Bool, [], ◌∷◌, ◌++◌, Option, none, some, map, filter, leb, if◌then◌else◌,
  distinct, print, update_where,
}
use cliqhub_core.Json.{Fields, end, field, str, num, obj}
use cliqhub_core.Outbox.Delivery.{command_outbox_enqueue}
use cliqhub_core.Hugs.{
  HugStatus, HugEventType, Hug, HugDelivery, NoticeType, HugStore, HugError, gone, conflict,
  internal, HugResult, done, refused, ◌>>=◌, find_hug, or_refuse,
}

-- What `assert_answerable` throws.
unfoldable pub assert_answerable : Hug → ℕ → Option HugError
assert_answerable h now = elim (h.status) [
  | HugStatus.expired ↦ some gone
  | HugStatus.open_hug ↦ if leb h.expires_at now then some gone else none
  | HugStatus.closed ↦ some conflict
  | HugStatus.cancelled ↦ some conflict
]

abbrev pub unless : {A : Type 0} → Option HugError → HugResult A → HugResult A
unless none r = r
unless (some e) r = refused e

abbrev pub of_id : String → Hug → Bool
of_id id h = h.id == id

abbrev pub incremented : Hug → Hug
incremented h = record h { last_seq = h.last_seq + 1 }

-- `row!.last_seq`: without the row an exception, which takes the transaction back.
unfoldable pub append_seq : String → HugStore → HugResult (HugStore × ℕ)
unfolding update_where
append_seq id s =
    let hugs = update_where (of_id id) incremented s.hugs in
    or_refuse (find_hug id hugs) internal >>= λ h. done (record s { hugs = hugs }, h.last_seq)

abbrev pub type_text : HugEventType → String
type_text HugEventType.response = "response"
type_text HugEventType.expired = "expired"
type_text HugEventType.cancelled = "cancelled"

abbrev pub delivery_fields : Hug → ℕ → HugEventType → Fields → Fields
delivery_fields h seq type_of payload = field "hug_id" (str h.id) (
    field "seq" (num (print seq)) (
      field "type" (str (type_text type_of))
        (field "payload" (obj payload) (field "run_id" (str h.run_id) end))))

-- `HugsService._deliver`. The clock is read once.
unfoldable pub deliver :
    (tx_id : String) (now : ℕ) → Hug → ℕ → HugEventType → Fields → HugStore → HugStore
unfolding command_outbox_enqueue
deliver tx_id now h seq type_of payload s = record s {
  queue =
      command_outbox_enqueue tx_id now h.daemon_id "/v1/hugs/deliver"
        (delivery_fields h seq type_of payload) none (some (max h.expires_at now + 3600000))
        s.queue;
}

unfoldable pub write_event : (now : ℕ) → Hug → ℕ → HugEventType → Fields → HugStore → HugStore
write_event now h seq type_of payload s = record s {
  hug_events =
      s.hug_events
      ++ (record {
        hug_id = h.id;
        seq = seq;
        type_of = type_of;
        payload = payload;
        created_at = now;
      }
          ∷ []);
}

abbrev pub delivery_of : String → HugDelivery → Bool
delivery_of id d = d.hug_id == id

-- `HugsService._notify`, where it is not given the channels.
unfoldable pub notify : Hug → NoticeType → Option String → HugStore → HugStore
unfolding distinct
notify h type_of detail s = record s {
  notices =
      s.notices
      ++ (record {
        type_of = type_of;
        about = h.id;
        channel_ids = distinct (map (λ d. d.channel_id) (filter (delivery_of h.id) s.deliveries));
        detail = detail;
      }
          ∷ []);
}
