-- ===== src/Outbox/Reply.antt =====
-- src/lib/daemon_reply.ts: how a daemon's answer is read.
use Prim.Native.Char.{code}
use Prim.Native.String.{String, [], ◌∷◌, ◌++◌}
use text.Mathlib.Text.{◌==◌}
use cliqhub_core.Prelude.{
  ℕ, ◌-◌, Bool, true, false, ◌&&◌, ◌||◌, Option, none, some, if◌then◌else◌, leb, eqb, trim,
  is_empty,
}
use cliqhub_core.Prelude.{print}
use cliqhub_core.Json.{Json, bool, str, obj, get_field}

pub record DaemonReplyError : Type 0 where
  pub code_text : String
  pub message : String

-- An answer over HTTP, its body as the text that was read and as the value that this parses to: null
-- where the text is empty or is no JSON.
pub record Reply : Type 0 where
  pub status : ℕ
  pub body : Json
  pub body_text : String

abbrev error_of : Json → Json → Option DaemonReplyError
error_of (str c) (str m) = some (record { code_text = c; message = m })
error_of _ _ = none

abbrev failure_of : Json → Json → Option DaemonReplyError
failure_of (bool false) (obj fs) = error_of (get_field fs "code") (get_field fs "message")
failure_of _ _ = none

unfoldable pub daemon_reply_error : Json → Option DaemonReplyError
daemon_reply_error (obj fs) = failure_of (get_field fs "ok") (get_field fs "error")
daemon_reply_error _ = none

abbrev data_of : Json → Json → Option Json
data_of (bool true) v = some v
data_of _ v = none

unfoldable pub daemon_reply_data : Json → Option Json
daemon_reply_data (obj fs) = data_of (get_field fs "ok") (get_field fs "data")
daemon_reply_data _ = none

abbrev has_code : Option DaemonReplyError → String → Bool
has_code none c = false
has_code (some e) c = e.code_text == c

unfoldable pub is_daemon_run_not_found : ℕ → Json → Bool
unfolding daemon_reply_error
is_daemon_run_not_found status body =
    eqb status 404 && has_code (daemon_reply_error body) "RUN_NOT_FOUND"

unfoldable pub is_retryable_daemon_status : ℕ → Bool
is_retryable_daemon_status status =
    eqb status 408 || eqb status 429 || eqb status 401 || leb 500 status

-- `s.slice(0, n)` counts UTF-16 units: a character beyond the first plane counts as two of them, and
-- one that the end would cut in half is left out.
unfoldable pub take_units : ℕ → String → String
take_units n [] = []
take_units n (c ∷ s) =
    let size = if leb 0x10000 (code c) then 2 else 1 in
    let rest = take_units (n - size) s in if leb size n then c ∷ rest else []

abbrev with_snippet : ℕ → String → String
with_snippet status snippet =
    if is_empty snippet
    then "HTTP " ++ print status
    else "HTTP " ++ (print status ++ (": " ++ snippet))

abbrev failure_text : ℕ → Option DaemonReplyError → String → String
failure_text status (some e) body_text =
    "HTTP " ++ (print status ++ (": " ++ (e.code_text ++ (": " ++ e.message))))
failure_text status none body_text = with_snippet status (take_units 200 (trim body_text))

unfoldable pub daemon_failure_message : Reply → String
unfolding daemon_reply_error
daemon_failure_message r = failure_text r.status (daemon_reply_error r.body) r.body_text
