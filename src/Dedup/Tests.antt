-- ===== src/Dedup/Tests.antt =====
-- A request that is sent twice.
use cliqhub_core.Prelude.{ℕ, String, true, false, ◌≡◌, refl, [], Option, none, some}
use Prim.Native.Nat.{suc}
use cliqhub_core.Json.{Json, bool, obj, field, str, end, get_prop}
use cliqhub_core.Dedup.{Faults, CapturedResponse, responded, lookup, handle_dedup}
use cliqhub_core.Dedup.Replay.{handle_dedup_twice}

abbrev no_parse : String → Option Json
no_parse s = none

abbrev no_lookup : Faults
no_lookup = record { lookup_fails = true; record_fails = false }

abbrev no_record : Faults
no_record = record { lookup_fails = false; record_fails = true }

abbrev made : CapturedResponse
made = record { status_code = 201; body = bool true }

-- Each run of the handler counts one more.
abbrev counting : ℕ → ℕ × Option CapturedResponse
counting n = (suc n, some made)

abbrev request : Json
request = obj (field "tx_id" (str "t1") end)

request_named : get_prop request "tx_id" ≡ str "t1"
unfolding get_prop
request_named = refl

nothing_stored : lookup "t1" [] ≡ none
unfolding lookup
nothing_stored = refl

handle_dedup_twice_example :
    ((handle_dedup no_parse no_lookup 5 request "/v1/a" counting 0 []).2
      ≡ responded 201 (bool true))
    × (handle_dedup no_parse no_record 6 request "/v1/b" counting
          (handle_dedup no_parse no_lookup 5 request "/v1/a" counting 0 []).0
          (handle_dedup no_parse no_lookup 5 request "/v1/a" counting 0 []).1
        ≡ (
          1,
          (handle_dedup no_parse no_lookup 5 request "/v1/a" counting 0 []).1,
          responded 201 (bool true),
        ))
handle_dedup_twice_example =
    handle_dedup_twice no_parse no_lookup no_record 5 6 request request "/v1/a" "/v1/b" "t1"
      counting counting 0 1 [] made request_named request_named refl nothing_stored refl refl refl
      tt
