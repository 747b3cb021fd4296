-- ===== src/Hugs/Ended.antt =====
-- hugs.service.ts: how a hug ends, its reminders, and the removal of old events.
use text.Mathlib.Text.{◌==◌}
use Prim.Native.Nat.{zero, suc}
use cliqhub_core.Prelude.{
  ℕ, ◌-◌, String, Bool, false, not, ◌&&◌, List, [], ◌∷◌, ◌++◌, Option, none, some, map, filter, ltb,
  leb, any, if◌then◌else◌, distinct, includes, update_where,
}
use cliqhub_core.Json.{end}
use cliqhub_core.Hugs.{
  HugStatus, HugEventType, Hug, HugDelivery, HugResponse, NoticeType, reminded, HugStore, not_found,
  forbidden, HugResult, done, refused, ◌>>=◌, is_open, find_hug, or_refuse,
}
use cliqhub_core.Hugs.Remind.{next_remind_at}
use cliqhub_core.Hugs.Parts.{append_seq, deliver, write_event, delivery_of, notify}

abbrev pub is_open_hug : String → Hug → Bool
is_open_hug id h = h.id == id && is_open h.status

abbrev pub closed_with : String → ℕ → Hug → Hug
closed_with outcome now h = record h {
  status = HugStatus.closed;
  outcome = some outcome;
  closed_at = some now;
  next_remind_at = none;
}

abbrev pub owned_by : String → Hug → HugResult Hug
owned_by daemon_id h = if h.daemon_id == daemon_id then done h else refused forbidden

-- The owner is read first, from a store that may be older; the status returned is the one read last.
unfoldable pub close :
    (seen : HugStore) (now : ℕ) (hug_id outcome daemon_id : String)
    → HugStore
    → HugResult (HugStore × HugStatus)
unfolding notify update_where
close seen now hug_id outcome daemon_id s =
    or_refuse (find_hug hug_id seen.hugs) not_found >>= λ found.
    owned_by daemon_id found >>= λ owner.
    let t = record s {
      hugs = update_where (is_open_hug hug_id) (closed_with outcome now) s.hugs;
    } in
    or_refuse (find_hug hug_id t.hugs) not_found >>= λ h. done (
      if any (is_open_hug hug_id) s.hugs then notify h NoticeType.closed (some outcome) t else t,
      h.status,
    )

pub data Ending : Type 0 where
  expiring cancelling : Ending

abbrev pub ended_status : Ending → HugStatus
ended_status expiring = HugStatus.expired
ended_status cancelling = HugStatus.cancelled

abbrev pub ended_type : Ending → HugEventType
ended_type expiring = HugEventType.expired
ended_type cancelling = HugEventType.cancelled

-- The clock at the update, at the event and at the delivery, and the id of the command.
pub record EndTimes : Type 0 where
  pub closed_at : ℕ
  pub written_at : ℕ
  pub sent_at : ℕ
  pub tx_id : String

abbrev pub ended_as : Ending → ℕ → Hug → Hug
ended_as how now h = record h {
  status = ended_status how;
  closed_at = some now;
  next_remind_at = none;
}

abbrev pub mark_ended : Ending → ℕ → String → HugStore → HugStore
mark_ended how now id s = record s {
  hugs = update_where (is_open_hug id) (ended_as how now) s.hugs;
}

-- The event that tells the requester, with its delivery.
unfoldable pub tell_ended : Ending → EndTimes → Hug → HugStore → HugResult HugStore
unfolding append_seq write_event deliver
tell_ended how at h s = append_seq h.id s >>= λ (t, seq). done (
    deliver at.tx_id at.sent_at h seq (ended_type how) end
      (write_event at.written_at h seq (ended_type how) end t))

abbrev pub or_unchanged : HugResult HugStore → HugStore → HugStore
or_unchanged (done t) s = t
or_unchanged (refused e) s = s

abbrev pub notify_end : Ending → Hug → HugStore → HugStore
notify_end expiring h s = notify h NoticeType.expired none s
notify_end cancelling h s = s

-- `HugsService._end`. An exception takes the transaction back and goes to the log.
unfoldable pub end_hug : Ending → EndTimes → Hug → HugStore → HugStore
unfolding update_where tell_ended notify
end_hug how at h s =
    if not (any (is_open_hug h.id) s.hugs)
    then s
    else or_unchanged
        (tell_ended how at h (mark_ended how at.closed_at h.id s) >>= λ t.
          done (notify_end how h t))
        s

unfoldable pub end_each : Ending → (Hug → EndTimes) → List Hug → HugStore → HugStore
unfolding end_hug
end_each how met [] s = s
end_each how met (h ∷ hs) s = end_each how met hs (end_hug how (met h) h s)

abbrev pub is_open_of_run : String → Hug → Bool
is_open_of_run run_id h = h.run_id == run_id && is_open h.status

unfoldable pub cancel_for_run : (Hug → EndTimes) → String → HugStore → HugStore
unfolding end_each
cancel_for_run met run_id s = end_each cancelling met (filter (is_open_of_run run_id) s.hugs) s

abbrev pub limit_hugs : ℕ → List Hug → List Hug
limit_hugs zero hs = []
limit_hugs (suc n) [] = []
limit_hugs (suc n) (h ∷ hs) = h ∷ limit_hugs n hs

abbrev pub is_overdue : ℕ → Hug → Bool
is_overdue now h = is_open h.status && leb h.expires_at now

unfoldable pub expire_due : (Hug → EndTimes) → (now : ℕ) → HugStore → HugStore
unfolding end_each
expire_due met now s = end_each expiring met (limit_hugs 100 (filter (is_overdue now) s.hugs)) s

abbrev is_reached : Option ℕ → ℕ → Bool
is_reached none now = false
is_reached (some at) now = leb at now

abbrev pub wants_reminder : ℕ → Hug → Bool
wants_reminder now h = is_open h.status && is_reached h.next_remind_at now && ltb now h.expires_at

abbrev has_answered : List HugResponse → HugDelivery → Bool
has_answered responses d = elim (d.user_id) [
  | some user ↦ includes (map (λ r. r.responder_user_id) responses) user
  | none ↦ any (λ r. includes r.via_channels d.channel) responses
]

unfoldable pub unanswered_channel_ids : Hug → HugStore → List String
unfolding includes distinct
unanswered_channel_ids h s =
    let responses = filter (λ r. r.hug_id == h.id) s.responses in
    distinct (
      map (λ d. d.channel_id)
        (filter (λ d. not (has_answered responses d)) (filter (delivery_of h.id) s.deliveries)))

abbrev pub rescheduled : ℕ → Hug → Hug → Hug
rescheduled now h row = record row {
  last_reminded_at = some now;
  next_remind_at = next_remind_at h.created_at h.reminders (some now) h.expires_at;
}

abbrev pub remind_channels : Hug → List String → HugStore → HugStore
remind_channels h [] s = s
remind_channels h (c ∷ cs) s = record s {
  notices =
      s.notices
      ++ (record { type_of = reminded; about = h.id; channel_ids = c ∷ cs; detail = none } ∷ []);
}

-- One round of the loop of `remind_due`, from the row as the query read it.
unfoldable pub remind_hug : ℕ → Hug → HugStore → HugStore
unfolding unanswered_channel_ids next_remind_at update_where
remind_hug now h s =
    let t = remind_channels h (unanswered_channel_ids h s) s in
    record t { hugs = update_where (λ row. row.id == h.id) (rescheduled now h) t.hugs }

unfoldable pub remind_each : ℕ → List Hug → HugStore → HugStore
unfolding remind_hug
remind_each now [] s = s
remind_each now (h ∷ hs) s = remind_each now hs (remind_hug now h s)

unfoldable pub remind_due : ℕ → HugStore → HugStore
unfolding remind_each
remind_due now s = remind_each now (limit_hugs 100 (filter (wants_reminder now) s.hugs)) s

abbrev is_before : Option ℕ → ℕ → Bool
is_before none t = false
is_before (some at) t = ltb at t

abbrev pub ended_long_ago : ℕ → Hug → Bool
ended_long_ago now h = not (is_open h.status) && is_before h.closed_at (now - 604800000)

unfoldable pub delete_old_events : ℕ → HugStore → HugStore
unfolding includes
delete_old_events now s =
    let ended = map (λ h. h.id) (filter (ended_long_ago now) s.hugs) in
    record s { hug_events = filter (λ e. not (includes ended e.hug_id)) s.hug_events }
