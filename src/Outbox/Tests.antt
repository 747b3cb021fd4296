-- ===== src/Outbox/Tests.antt =====
-- The outbox on a table of one or two commands.
use mathlib.Core.Path.{subst}
use cliqhub_core.Prelude.{
  ℕ, ◌≤◌, String, Bool, true, false, ◌≡◌, ◌≢◌, refl, sym, [], ◌∷◌, In, inl, inr, ◌⊎◌, Option, none,
  some, arith, trim, length,
}
use cliqhub_core.Json.{Fields, get_field, obj, field, str, end, get_prop}
use cliqhub_core.Outbox.{Entry, Run, Store}
use cliqhub_core.Outbox.Delivery.{
  command_outbox_enqueue, Contact, Delivery, deliver_entry, poll_cycle, pending_batch, is_pending,
  is_backing_off, backoff_ms,
}
use cliqhub_core.Outbox.Ack.{AckBody, Reported, done, ack_command}
use cliqhub_core.Outbox.Rows.{Only}
use cliqhub_core.Outbox.Ended.{KeepsEnded, poll_cycle-KeepsEnded}
use cliqhub_core.Outbox.Tries.{IsCloser, deliver_entry-IsCloser, deliver_entry-waits}
use cliqhub_core.Outbox.Batch.{pending_batch-oldest}
use cliqhub_core.Outbox.Enqueued.{command_outbox_enqueue-IsPending}
use cliqhub_core.Outbox.Acked.{ack_command_twice}

abbrev command : ℕ → Option ℕ → Entry
command attempts until = record {
  tx_id = "t1";
  daemon_id = "d1";
  endpoint = "/v1/execute";
  payload = obj (field "run_id" (str "run1") end);
  attempts = attempts;
  max_attempts = 2;
  created_at = 10;
  deliver_until = until;
  delivered_at = none;
  acked_at = none;
  ack_status = none;
  ack_data = none;
  ack_error = none;
  error = none;
}

abbrev started : Run
started = record {
  run_id = "run1";
  daemon_id = some "d1";
  state = "running";
  completed_at = none;
  run_error = none;
  lease_expires_at = some 5;
  state_lost_at = none;
  force_terminated_at = none;
  force_terminated_by_user_id = none;
  force_terminated_reason = none;
}

abbrev ended : Run
ended = record {
  run_id = "run2";
  daemon_id = some "d1";
  state = "completed";
  completed_at = some 3;
  run_error = none;
  lease_expires_at = none;
  state_lost_at = none;
  force_terminated_at = none;
  force_terminated_by_user_id = none;
  force_terminated_reason = none;
}

abbrev small : Entry → Store
small e = record { outbox = e ∷ []; runs = started ∷ ended ∷ []; events = [] }

abbrev unreachable : Delivery
unreachable = record { checked_at = 90000; contact = Contact.no_url; settled_at = 90001 }

small-Only : (e : Entry) → Only e (small e).outbox
small-Only e y (inl q) same = sym q
small-Only e y (inr at) same = absurd at

due : is_backing_off 90000 (command 1 none) ≡ false
unfolding is_backing_off backoff_ms
due = refl

due_until : is_backing_off 90000 (command 1 (some 95000)) ≡ false
unfolding is_backing_off backoff_ms
due_until = refl

abbrev left : Entry
left = record (command 2 none) { error = some "no_public_url"; created_at = 90001 }

last_try : (deliver_entry unreachable (command 1 none) (small (command 1 none))).outbox ≡ left ∷ []
unfolding deliver_entry trim
last_try = refl

abbrev still_waiting : Entry
still_waiting = record (command 1 (some 95000)) { created_at = 90001 }

waited :
    (deliver_entry unreachable (command 1 (some 95000)) (small (command 1 (some 95000)))).outbox
    ≡ still_waiting ∷ []
unfolding deliver_entry
waited = refl

poll_cycle-KeepsEnded_example :
    KeepsEnded
      (small (command 1 none)).runs
      (poll_cycle 90000 (λ e. unreachable) (small (command 1 none))).runs
poll_cycle-KeepsEnded_example =
    poll_cycle-KeepsEnded 90000 (λ e. unreachable) (small (command 1 none))

deliver_entry-IsCloser_example : IsCloser (command 1 none) left
deliver_entry-IsCloser_example =
    deliver_entry-IsCloser unreachable (command 1 none) (small (command 1 none))
      (small-Only (command 1 none)) refl (omega arith) due left
      (subst (In left) (sym last_try) (inl refl)) refl

deliver_entry-waits_example :
    (still_waiting.attempts ≡ 1) × ((later : ℕ) → is_pending later still_waiting ≡ true)
deliver_entry-waits_example =
    deliver_entry-waits unreachable (command 1 (some 95000)) (small (command 1 (some 95000)))
      (small-Only (command 1 (some 95000))) refl refl (omega arith) due_until refl still_waiting
      (subst (In still_waiting) (sym waited) (inl refl)) refl

pending_batch-oldest_example :
    (length (pending_batch 5 (command 1 none ∷ [])) ≤ 20)
    × ((x : Entry)
        → In x (pending_batch 5 (command 1 none ∷ []))
        → In x (command 1 none ∷ []) × (is_pending 5 x ≡ true))
    × ((x : Entry)
        → In x (command 1 none ∷ [])
        → is_pending 5 x ≡ true
        → In x (pending_batch 5 (command 1 none ∷ []))
          ⊎ ((length (pending_batch 5 (command 1 none ∷ [])) ≡ 20)
              × ((y : Entry)
                  → In y (pending_batch 5 (command 1 none ∷ []))
                  → y.created_at ≤ x.created_at)))
pending_batch-oldest_example = pending_batch-oldest 5 (command 1 none ∷ [])

abbrev answer : String → Reported → AckBody
answer daemon status = record {
  command_tx_id = "t1";
  daemon_id = daemon;
  status = status;
  data_sent = none;
  error = some "busy";
}

abbrev everyone : String → String → Bool
everyone realm daemon = true

ack_command_twice_example :
    ack_command 8
      (some "r1")
      everyone
      (answer "d1" Reported.ok)
      (ack_command 7 (some "r1") everyone (answer "d1" Reported.error) (small (command 1 none))).0
    ≡ (
      (ack_command 7 (some "r1") everyone (answer "d1" Reported.error) (small (command 1 none))).0,
      done,
    )
ack_command_twice_example =
    ack_command_twice "r1" everyone (answer "d1" Reported.error) (small (command 1 none))
      {e = command 1 none} refl refl 7 8 (answer "d1" Reported.ok) (omega arith) refl refl refl refl

abbrev asked : Fields
asked = field "run_id" (str "run1") end

some_tries : ◌≢◌ {A = Option ℕ} none (some 0)
some_tries q = cc

command_outbox_enqueue-IsPending_example :
    (e : Entry) × In e
      (command_outbox_enqueue "t2" 7 "d1" "/v1/execute" asked none none
        (small (command 1 none))).outbox
    × (e.tx_id ≡ "t2")
    × (e.daemon_id ≡ "d1")
    × (e.endpoint ≡ "/v1/execute")
    × (get_prop e.payload "tx_id" ≡ str "t2")
    × ((k : String) → k ≢ "tx_id" → get_prop e.payload k ≡ get_field asked k)
    × ((later : ℕ) → (is_pending later e ≡ true) × (is_backing_off later e ≡ false))
command_outbox_enqueue-IsPending_example =
    command_outbox_enqueue-IsPending "t2" 7 "d1" "/v1/execute" asked none none
      (small (command 1 none)) some_tries
