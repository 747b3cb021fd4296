-- ===== src/Queue.antt =====
-- src/services/queue.service.ts: the dispatch queue of a realm. The rows of realm_dispatch_queue are a
-- list; a method that reads a row and saves it later is its two halves, so that other calls can come
-- between them. A save writes only the columns whose value differs from what was read.
pub mod Owned
pub mod Exclusive
pub mod Tests
use text.Mathlib.Text.{◌==◌}
use cliqhub_core.Prelude.{
  ℤ, pos, ℕ, ◌-◌, String, Bool, true, false, not, ◌&&◌, ◌||◌, List, [], ◌∷◌, ◌++◌, Option, none,
  some, if◌then◌else◌, is_none, is_empty, trim, any, update_where,
}
use cliqhub_core.Json.{Json, obj, end}

pub data Kind : Type 0 where
  run install uninstall : Kind

pub data Status : Type 0 where
  queued offered claimed running dispatching completed partial failed cancelled : Status

pub record Item : Type 0 where
  pub id : String
  pub realm_id : String
  pub kind : Kind
  pub payload : Json
  pub priority : ℤ
  pub status : Status
  pub claimed_by : Option String
  pub claimed_at : Option ℕ
  pub run_id : Option String
  pub results : Option Json
  pub submitted_by : String
  pub submitted_at : ℕ
  pub error : Option String
  pub created_at : ℕ
  pub updated_at : ℕ

pub data QueueResult : Type 0 where
  of_item : Item → QueueResult
  bad_request not_found conflict : QueueResult

abbrev pub find_id : String → List Item → Option Item
find_id id [] = none
find_id id (x ∷ xs) = let rest = find_id id xs in if x.id == id then some x else rest

pub record NewItem : Type 0 where
  pub realm_id : String
  pub kind : Kind
  pub payload : Option Json
  pub priority : Option ℤ
  pub submitted_by : String
  pub status : Option Status

abbrev default {ℓ} : {A : Type ℓ} → Option A → A → A
default none d = d
default (some a) d = a

abbrev pub new_item : String → ℕ → NewItem → Item
new_item id now input = record {
  id = id;
  realm_id = trim input.realm_id;
  kind = input.kind;
  payload = default input.payload (obj end);
  priority = default input.priority (pos 0);
  status = default input.status queued;
  claimed_by = none;
  claimed_at = none;
  run_id = none;
  results = none;
  submitted_by = trim input.submitted_by;
  submitted_at = now;
  error = none;
  created_at = now;
  updated_at = now;
}

-- The id is a fresh `randomUUID()`; the primary key refuses one that is taken.
unfoldable pub create : String → ℕ → NewItem → List Item → List Item × QueueResult
create id now input rows =
    if is_empty (trim input.realm_id) || is_empty (trim input.submitted_by)
    then (rows, bad_request)
    else if any (λ x. x.id == id) rows
    then (rows, conflict)
    else (rows ++ new_item id now input ∷ [], of_item (new_item id now input))

abbrev pub is_open : Status → Bool
is_open queued = true
is_open offered = true
is_open _ = false

-- The condition of the conditional UPDATE.
abbrev pub is_free : String → Item → Bool
is_free id x = x.id == id && is_open x.status && is_none x.claimed_by

abbrev pub taken : ℕ → String → Item → Item
taken now daemon x = record x {
  status = claimed;
  claimed_by = some daemon;
  claimed_at = some now;
  updated_at = now;
}

unfoldable pub take : ℕ → String → String → List Item → List Item
unfolding update_where
take now id daemon rows = update_where (is_free id) (taken now daemon) rows

-- `RETURNING *`: the rows that were changed, as they are now.
unfoldable pub returned : ℕ → String → String → List Item → List Item
returned now id daemon [] = []
returned now id daemon (x ∷ xs) =
    let rest = returned now id daemon xs in if is_free id x then taken now daemon x ∷ rest else rest

abbrev pub claim_result : String → List Item → List Item → QueueResult
claim_result id rows (won ∷ rest) = of_item won
claim_result id rows [] = if is_none (find_id id rows) then not_found else conflict

unfoldable pub claim : ℕ → String → String → List Item → List Item × QueueResult
unfolding take returned
claim now queue_item_id daemon_id rows =
    if is_empty (trim queue_item_id) || is_empty (trim daemon_id) then (rows, bad_request) else (
      take now (trim queue_item_id) (trim daemon_id) rows,
      claim_result (trim queue_item_id) (take now (trim queue_item_id) (trim daemon_id) rows)
          (returned now (trim queue_item_id) (trim daemon_id) rows),
    )

same_status : Status → Status → Bool
same_status queued queued = true
same_status offered offered = true
same_status claimed claimed = true
same_status running running = true
same_status dispatching dispatching = true
same_status completed completed = true
same_status partial partial = true
same_status failed failed = true
same_status cancelled cancelled = true
same_status _ _ = false

unfoldable pub saved_status : Status → Status → Status → Status
unfolding same_status
saved_status seen new now_there = if same_status seen new then now_there else new

-- The row is found and may be offered.
unfoldable pub read_to_offer : String → List Item → Option Item → QueueResult
read_to_offer id rows none = not_found
read_to_offer id rows (some row) = if is_open row.status then of_item row else conflict

abbrev pub is_item : String → Item → Bool
is_item id x = x.id == id

abbrev pub offered_item : ℕ → Item → Item → Item
offered_item now seen x = record x {
  status = saved_status seen.status offered x.status;
  updated_at = now;
}

-- The second half of mark_offered: `seen` is the row that the first half read.
unfoldable pub save_offered : ℕ → Item → List Item → List Item
unfolding update_where saved_status
save_offered now seen rows = update_where (is_item seen.id) (offered_item now seen) rows

mark_result : ℕ → List Item → QueueResult → List Item × QueueResult
unfolding save_offered
mark_result now rows (of_item row) = (save_offered now row rows, of_item (offered_item now row row))
mark_result now rows refusal = (rows, refusal)

-- Both halves with nothing between them.
unfoldable pub mark_offered : ℕ → String → List Item → List Item × QueueResult
unfolding mark_result read_to_offer
mark_offered now id rows = mark_result now rows (read_to_offer id rows (find_id id rows))

-- A field of the input that is missing is left alone; `some none` sets null.
pub record Outcome : Type 0 where
  pub status : Status
  pub results : Option Json
  pub error : Option (Option String)
  pub run_id : Option (Option String)

abbrev kept_or {ℓ} : {A : Type ℓ} → Option A → A → A
kept_or none old = old
kept_or (some new) old = new

abbrev some_or : Option Json → Option Json → Option Json
some_or none old = old
some_or (some new) old = some new

abbrev pub item_with : ℕ → Item → Outcome → Item → Item
item_with now seen input x = record x {
  status = saved_status seen.status input.status x.status;
  results = some_or input.results x.results;
  error = kept_or input.error x.error;
  run_id = kept_or input.run_id x.run_id;
  updated_at = now;
}

-- The second half of set_results; the three optional columns are written whenever they are given.
unfoldable pub save_results : ℕ → Item → Outcome → List Item → List Item
unfolding update_where saved_status
save_results now seen input rows = update_where (is_item seen.id) (item_with now seen input) rows

results_of : ℕ → Outcome → List Item → Option Item → List Item × QueueResult
unfolding save_results
results_of now input rows none = (rows, not_found)
results_of now input rows (some row) =
    (save_results now row input rows, of_item (item_with now row input row))

unfoldable pub set_results : ℕ → String → Outcome → List Item → List Item × QueueResult
unfolding results_of
set_results now id input rows = results_of now input rows (find_id id rows)
