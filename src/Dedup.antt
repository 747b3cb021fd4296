-- ===== src/Dedup.antt =====
-- src/middleware/inbound_dedup.ts: a request of a daemon that is sent twice runs its handler once. The
-- handler is an argument: a step on the state `S` of everything else, which answers with a status and a
-- body, or hands on an error. A statement on the table may fail: a failed lookup counts as a miss, and a
-- row that cannot be written is left out.
pub mod Replay
pub mod Tests
use text.Mathlib.Text.{◌==◌}
use cliqhub_core.Prelude.{
  ℕ, ◌-◌, String, Bool, true, false, not, List, [], ◌∷◌, ◌++◌, Option, none, some, if◌then◌else◌,
  is_none, is_empty, ltb, filter, length, any,
}
use cliqhub_core.Json.{Json, str, get_prop}

pub record DedupRow : Type 0 where
  pub tx_id : String
  pub endpoint : String
  pub status_code : ℕ
  pub response : Json
  pub created_at : ℕ

pub record CapturedResponse : Type 0 where
  pub status_code : ℕ
  pub body : Json

pub data Answer : Type 0 where
  responded : (status : ℕ) (body : Json) → Answer
  tx_id_required : Answer
  error_passed_on : Answer

unfoldable pub lookup : String → List DedupRow → Option DedupRow
lookup tx_id [] = none
lookup tx_id (r ∷ rs) = let rest = lookup tx_id rs in if r.tx_id == tx_id then some r else rest

-- `ON CONFLICT (tx_id) DO NOTHING`.
unfoldable pub record_row : DedupRow → List DedupRow → List DedupRow
record_row row rows = if any (λ r. r.tx_id == row.tx_id) rows then rows else rows ++ row ∷ []

-- Which of the statements of a request fail.
pub record Faults : Type 0 where
  pub lookup_fails : Bool
  pub record_fails : Bool

-- `_lookup` and `_record`, each with its `catch`.
unfoldable pub lookup_or_miss : Bool → String → List DedupRow → Option DedupRow
unfolding lookup
lookup_or_miss fails tx_id rows = if fails then none else lookup tx_id rows

unfoldable pub record_or_skip : Bool → DedupRow → List DedupRow → List DedupRow
unfolding record_row
record_or_skip fails row rows = if fails then rows else record_row row rows

-- `parse` is `JSON.parse`, `none` where it throws.
abbrev pub replayed : (String → Option Json) → ℕ → Json → Answer
replayed parse status (str s) = elim (parse s) [
  | none ↦ error_passed_on
  | some body ↦ responded status body
]
replayed parse status body = responded status body

module _ {S : Type 0} (parse : String → Option Json) (faults : Faults) where
  abbrev pub keep_response :
      ℕ → String → String → List DedupRow → S × Option CapturedResponse → S × List DedupRow × Answer
  keep_response now tx_id endpoint rows (s, none) = (s, rows, error_passed_on)
  keep_response now tx_id endpoint rows (s, some c) = (
    s,
    record_or_skip faults.record_fails
        (record {
          tx_id = tx_id;
          endpoint = endpoint;
          status_code = c.status_code;
          response = c.body;
          created_at = now;
        })
        rows,
    responded c.status_code c.body,
  )

  abbrev pub answer_from :
      ℕ
      → String
      → String
      → (S → S × Option CapturedResponse)
      → S
      → List DedupRow
      → Option DedupRow
      → S × List DedupRow × Answer
  answer_from now tx_id endpoint handler s rows (some cached) =
      (s, rows, replayed parse cached.status_code cached.response)
  answer_from now tx_id endpoint handler s rows none =
      keep_response now tx_id endpoint rows (handler s)

  abbrev with_tx_id :
      ℕ
      → Json
      → String
      → (S → S × Option CapturedResponse)
      → S
      → List DedupRow
      → S × List DedupRow × Answer
  with_tx_id now (str tx_id) endpoint handler s rows =
      if is_empty tx_id
      then (s, rows, tx_id_required)
      else answer_from now tx_id endpoint handler s rows
          (lookup_or_miss faults.lookup_fails tx_id rows)
  with_tx_id now other endpoint handler s rows = (s, rows, tx_id_required)

  unfoldable pub handle_dedup :
      (now : ℕ) (body : Json) (endpoint : String) (handler : S → S × Option CapturedResponse)
      → S
      → List DedupRow
      → S × List DedupRow × Answer
  unfolding lookup_or_miss record_or_skip get_prop
  handle_dedup now body endpoint handler s rows =
      with_tx_id now (get_prop body "tx_id") endpoint handler s rows

-- Rows older than seven days go.
unfoldable pub run_gc : ℕ → List DedupRow → List DedupRow
run_gc now rows = filter (λ r. not (ltb r.created_at (now - 604800000))) rows

unfoldable pub get_dedup_stats : List DedupRow → ℕ
get_dedup_stats rows = length rows
