-- ===== src/Dedup/Replay.antt =====
-- What a second request with the same transaction id meets.
use text.Mathlib.Text.{◌==◌}
use mathlib.Core.Path.{subst}
use cliqhub_core.Prelude.{
  ℕ, String, Bool, true, false, ◌≡◌, refl, sym, ap, ◌∙◌, List, [], ◌∷◌, ◌++◌, Option, none, some,
  Bool-cases, inl, inr, arith, eq_iff, is_empty, any,
}
use cliqhub_core.Json.{Json, str, get_prop}
use cliqhub_core.Dedup.{
  DedupRow, Faults, lookup_or_miss, record_or_skip, CapturedResponse, responded, lookup, record_row,
  replayed, keep_response, answer_from, handle_dedup,
}

-- A body that is no text: what is stored of it is answered as it is.
abbrev pub IsPlain : Json → Type 0
IsPlain (str s) = ⊥
IsPlain _ = Unit

lookup-append :
    (tx : String) (row : DedupRow) (rows : List DedupRow)
    → lookup tx rows ≡ none
    → row.tx_id ≡ tx
    → lookup tx (rows ++ row ∷ []) ≡ some row
unfolding lookup
lookup-append tx row [] h e = ground (arith, eq_iff row.tx_id tx)
lookup-append tx row (r ∷ rs) h e = elim (Bool-cases (r.tx_id == tx)) [
  | inl t ↦ absurd (some_none (rw t at h))
  | inr n ↦ rw n (lookup-append tx row rs (rw n at h) e)
]
  where
    some_none : {r : DedupRow} → some r ≡ none → ⊥
    some_none q = cc

lookup-any :
    (tx : String) (rows : List DedupRow)
    → lookup tx rows ≡ none
    → any (λ r. r.tx_id == tx) rows ≡ false
unfolding lookup
lookup-any tx [] h = refl
lookup-any tx (r ∷ rs) h = elim (Bool-cases (r.tx_id == tx)) [
  | inl t ↦ absurd (some_none (rw t at h))
  | inr n ↦ rw n (lookup-any tx rs (rw n at h))
]
  where
    some_none : {r : DedupRow} → some r ≡ none → ⊥
    some_none q = cc

lookup-record_row :
    (row : DedupRow) (rows : List DedupRow)
    → lookup row.tx_id rows ≡ none
    → lookup row.tx_id (record_row row rows) ≡ some row
unfolding record_row
lookup-record_row row rows h =
    rw (lookup-any row.tx_id rows h) (lookup-append row.tx_id row rows h refl)

replayed-plain :
    (parse : String → Option Json) (status : ℕ) (body : Json)
    → IsPlain body
    → replayed parse status body ≡ responded status body
replayed-plain parse status (str s) h = absurd h
replayed-plain parse status _ h = refl

missed :
    (fails : Bool) (tx : String) (rows : List DedupRow)
    → lookup tx rows ≡ none
    → lookup_or_miss fails tx rows ≡ none
unfolding lookup_or_miss
missed true tx rows h = refl
missed false tx rows h = h

looked_up :
    (fails : Bool) (tx : String) (rows : List DedupRow)
    → fails ≡ false
    → lookup_or_miss fails tx rows ≡ lookup tx rows
unfolding lookup_or_miss
looked_up fails tx rows h = rw h refl

recorded :
    (fails : Bool) (row : DedupRow) (rows : List DedupRow)
    → fails ≡ false
    → record_or_skip fails row rows ≡ record_row row rows
unfolding record_or_skip
recorded fails row rows h = rw h refl

module _ {S : Type 0} (parse : String → Option Json) where
  handle-named :
      (faults : Faults) (now : ℕ) (body : Json) (endpoint tx : String)
      (handler : S → S × Option CapturedResponse) (s : S) (rows : List DedupRow)
      → get_prop body "tx_id" ≡ str tx
      → is_empty tx ≡ false
      → handle_dedup parse faults now body endpoint handler s rows
        ≡ answer_from parse faults now tx endpoint handler s rows
            (lookup_or_miss faults.lookup_fails tx rows)
  unfolding handle_dedup
  handle-named faults now body endpoint tx handler s rows named full = rw named (rw full refl)

  -- A first request whose handler answers with a body that is no JSON text, and whose row can be written, is
  -- answered with it, and a second request with the same transaction id, to any endpoint and with any
  -- handler, whose lookup does not fail, is answered alike, runs no handler and writes no row.
  pub handle_dedup_twice :
      (first_faults second_faults : Faults) (now later : ℕ) (body again : Json)
      (endpoint other tx : String) (handler second : S → S × Option CapturedResponse) (s t : S)
      (rows : List DedupRow) (c : CapturedResponse)
      → get_prop body "tx_id" ≡ str tx
      → get_prop again "tx_id" ≡ str tx
      → is_empty tx ≡ false
      → lookup tx rows ≡ none
      → first_faults.record_fails ≡ false
      → second_faults.lookup_fails ≡ false
      → handler s ≡ (t, some c)
      → IsPlain c.body
      → (handle_dedup parse first_faults now body endpoint handler s rows).2
          ≡ responded c.status_code c.body
        × handle_dedup parse second_faults later again other second
            (handle_dedup parse first_faults now body endpoint handler s rows).0
            (handle_dedup parse first_faults now body endpoint handler s rows).1
          ≡ (
            t,
            (handle_dedup parse first_faults now body endpoint handler s rows).1,
            responded c.status_code c.body,
          )
  handle_dedup_twice first_faults second_faults now later body again endpoint other tx handler
        second s t rows c n n2 full miss kept seen run plain =
      let row : DedupRow = record {
        tx_id = tx;
        endpoint = endpoint;
        status_code = c.status_code;
        response = c.body;
        created_at = now;
      } in
      let first : handle_dedup parse first_faults now body endpoint handler s rows
          ≡ (t, record_row row rows, responded c.status_code c.body) =
        handle-named first_faults now body endpoint tx handler s rows n full
        ∙ (ap (answer_from parse first_faults now tx endpoint handler s rows)
              (missed first_faults.lookup_fails tx rows miss)
            ∙ (ap (keep_response parse first_faults now tx endpoint rows) run
                ∙ ap (λ rs. (t, rs, responded c.status_code c.body))
                    (recorded first_faults.record_fails row rows kept))) in
      let hit : handle_dedup parse second_faults later again other second t (record_row row rows)
          ≡ (t, record_row row rows, responded c.status_code c.body) =
        handle-named second_faults later again other tx second t (record_row row rows) n2 full
        ∙ (ap (answer_from parse second_faults later tx other second t (record_row row rows)) (
              looked_up second_faults.lookup_fails tx (record_row row rows) seen
              ∙ lookup-record_row row rows miss)
            ∙ ap (λ a. (t, record_row row rows, a))
                (replayed-plain parse c.status_code c.body plain)) in
      subst
        (λ r.
          (r.2 ≡ responded c.status_code c.body)
          × (handle_dedup parse second_faults later again other second r.0 r.1
              ≡ (t, r.1, responded c.status_code c.body)))
        (sym first) (refl, hit)
