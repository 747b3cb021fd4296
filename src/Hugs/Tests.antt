-- ===== src/Hugs/Tests.antt =====
-- One hug, and the theorems of hugs at it.
use Prim.Native.Nat.{suc}
use cliqhub_core.Prelude.{
  ℕ, ◌↔◌, ◌+◌, ◌*◌, ◌<◌, ◌≤◌, String, Bool, true, false, ◌≡◌, refl, sym, ap, List, [], ◌∷◌, ◌++◌,
  In, Option, none, some, inl, inr, length, ◌⊎◌, arith,
}
use cliqhub_core.Json.{Fields, end, field, str, null}
use cliqhub_core.Hugs.{
  Hug, HugStatus, open_hug, closed, Reminders, HugEventRow, HugStore, HugContext, HugResult, done,
  refused, accepted, HugEventType, find_hug, is_open,
}
use cliqhub_core.Hugs.Remind.{next_remind_at}
use cliqhub_core.Hugs.Reminded.{next_remind_at-between}
use cliqhub_core.Hugs.Answer.{Attempt, Answer, respond}
use cliqhub_core.Hugs.Ended.{EndTimes, expiring, cancelling, end_hug}
use cliqhub_core.Hugs.CatchUp.{Cursor, get_events}
use cliqhub_core.Hugs.CaughtUp.{Missed, get_events_complete}
use cliqhub_core.Hugs.Told.{numbered_to}
use cliqhub_core.Hugs.Accepted.{Addressed, respond_accepted}
use cliqhub_core.Hugs.Commanded.{Commanded, step-Commanded}
use cliqhub_core.Hugs.Numbered.{IsNumbered, steps-IsNumbered}
use cliqhub_core.Hugs.Settled.{Settled, settled}
use cliqhub_core.Hugs.Final.{steps-Settled}
use cliqhub_core.Hugs.Swept.{overdue, expire_rounds, expire_rounds-done}
use cliqhub_core.Hugs.Steps.{HugStep, responding, ending, stop, next}

abbrev nudges : Reminders
nudges = record { every_min = some 20; at_min = 5 ∷ [] }

abbrev hug : HugStatus → Option String → Option ℕ → Hug
hug status outcome closed_at = record {
  id = "h1";
  run_id = "r1";
  phase = "review";
  iteration = 1;
  daemon_id = "d1";
  realm_id = "realm1";
  org_id = "org1";
  title = "Approve?";
  template = "approve";
  template_version = 1;
  params = null;
  channels = "alice" ∷ [];
  status = status;
  outcome = outcome;
  expires_at = 1000000;
  reminders = some nudges;
  next_remind_at = none;
  last_reminded_at = none;
  last_seq = 0;
  created_at = 1000;
  closed_at = closed_at;
  not_sent_to = [];
}

abbrev with_hug : Hug → HugStore
with_hug h = record {
  hugs = h ∷ [];
  deliveries =
      record { hug_id = "h1"; channel = "alice"; channel_id = "c1"; user_id = some "u1" } ∷ [];
  responses = [];
  hug_events = [];
  artifacts = [];
  notices = [];
  queue = record { outbox = []; runs = []; events = [] };
}

abbrev opened : HugStore
opened = with_hug (hug open_hug none none)

abbrev all_allowed : HugContext
all_allowed = record {
  can_view_runs = λ user realm. true;
  has_template = λ name version. true;
  check_answer = λ name version params values. accepted (field "approve" values end);
  inputs_of = λ name version params. [];
  person = λ id. none;
}

abbrev attempt : Attempt
attempt = record {
  checked_at = 2000;
  locked_at = 2001;
  written_at = 2002;
  sent_at = 2003;
  response_id = "resp1";
  tx_id = "tx1";
}

abbrev approval : Answer
approval = record { hug_id = "h1"; user_id = "u1"; values = str "yes" }

abbrev store_of : HugResult (HugStore × ℕ) → HugStore → HugStore
store_of (done (t, seq)) s = t
store_of (refused e) s = s

abbrev answered : HugStore
unfolding respond
answered = store_of (respond all_allowed attempt opened approval opened) opened

answer_done : respond all_allowed attempt opened approval opened ≡ done (answered, 1)
unfolding respond
answer_done = refl

abbrev times : EndTimes
times = record { closed_at = 3000; written_at = 3001; sent_at = 3002; tx_id = "tx2" }

abbrev answering : HugStep all_allowed opened answered
answering = responding attempt opened approval opened answered 1 answer_done

opened-IsNumbered : IsNumbered opened
opened-IsNumbered = record { within = λ e at. absurd at; increasing = tt }

steps-IsNumbered_example : IsNumbered (end_hug cancelling times (hug open_hug none none) answered)
steps-IsNumbered_example =
    steps-IsNumbered all_allowed opened _
      (next opened answered _ answering
        (next answered _ _ (ending cancelling times (hug open_hug none none) answered) (stop _)))
      opened-IsNumbered

abbrev closed_hugs : HugStore
closed_hugs = with_hug (hug closed (some "yes") (some 1500))

closed_hugs-Settled : Settled "h1" closed (some "yes") (some 1500) closed_hugs.hugs
closed_hugs-Settled =
    settled closed_hugs.hugs (hug closed (some "yes") (some 1500)) (inl refl) refl λ g at g_id.
      elim at [
        | inl q ↦
            (sym (ap (λ z. z.status) q), sym (ap (λ z. z.outcome) q), sym (ap (λ z. z.closed_at) q))
        | inr j ↦ absurd j
      ]

steps-Settled_example :
    Settled "h1" closed
      (some "yes")
      (some 1500)
      (end_hug expiring times (hug open_hug none none) closed_hugs).hugs
    × ((e : HugEventRow)
        → In e (end_hug expiring times (hug open_hug none none) closed_hugs).hug_events
        → e.hug_id ≡ "h1"
        → In e closed_hugs.hug_events)
steps-Settled_example =
    steps-Settled "h1" closed (some "yes") (some 1500) refl all_allowed closed_hugs _
      (next closed_hugs _ _ (ending expiring times (hug open_hug none none) closed_hugs) (stop _))
      closed_hugs-Settled

respond_accepted_example :
    (h : Hug) × (find_hug "h1" opened.hugs ≡ some h)
    × (all_allowed.can_view_runs "u1" h.realm_id ≡ true)
    × Addressed opened h "u1"
    × ((values : Fields) × (all_allowed.check_answer h.template h.template_version h.params
            (str "yes")
          ≡ accepted values))
    × ((locked : Hug) × (find_hug h.id opened.hugs ≡ some locked)
        × (is_open locked.status ≡ true)
        × (2001 < locked.expires_at))
    × (1 ≡ suc (numbered_to h.id opened.hugs))
    × ((event : HugEventRow) × (answered.hug_events ≡ opened.hug_events ++ (event ∷ []))
        × (event.hug_id ≡ h.id)
        × (event.seq ≡ 1))
respond_accepted_example =
    respond_accepted all_allowed attempt opened approval opened answered 1 answer_done

abbrev first_of : List HugEventRow → HugEventRow
first_of [] = record {
  hug_id = "";
  seq = 0;
  type_of = HugEventType.expired;
  payload = end;
  created_at = 0;
}
first_of (e ∷ es) = e

abbrev the_event : HugEventRow
the_event = first_of answered.hug_events

step-Commanded_example : In the_event opened.hug_events ⊎ Commanded the_event answered.queue.outbox
unfolding answered
step-Commanded_example = step-Commanded all_allowed opened answered answering the_event (inl refl)

next_reminder : next_remind_at 1000 (some nudges) none 1000000 ≡ some 301000
unfolding next_remind_at
next_reminder = refl

next_remind_at-between_example :
    (1000 < 301000)
    × (301000 < 1000000)
    × ((m : ℕ) → In m (5 ∷ []) → 1000 < 1000 + m * 60000 → 301000 ≤ 1000 + m * 60000)
    × ((m : ℕ) → some 20 ≡ some m → 0 < m → 301000 ≤ 1000 + m * 60000)
next_remind_at-between_example =
    next_remind_at-between 1000 nudges none 1000000 301000 next_reminder

abbrev cursors : List Cursor
cursors = record { hug_id = "h1"; after_seq = 0 } ∷ []

abbrev never_less : String → String → Bool
never_less a b = false

get_events_complete_example :
    (((get_events never_less "d1" cursors answered).has_more ≡ false)
      × (In the_event (get_events never_less "d1" cursors answered).events
          ↔ Missed "d1" cursors answered the_event))
    ⊎ (((get_events never_less "d1" cursors answered).has_more ≡ true)
        × (length (get_events never_less "d1" cursors answered).events ≡ 500)
        × (In the_event (get_events never_less "d1" cursors answered).events
            → Missed "d1" cursors answered the_event))
get_events_complete_example = get_events_complete never_less "d1" cursors answered the_event

expire_rounds-done_example :
    overdue 1000000 (expire_rounds ((λ h. times) ∷ []) 1000000 opened).hugs ≡ 0
expire_rounds-done_example = expire_rounds-done ((λ h. times) ∷ []) 1000000 opened (omega arith)
