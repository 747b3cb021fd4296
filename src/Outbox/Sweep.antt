-- ===== src/Outbox/Sweep.antt =====
-- command_outbox.service.ts: the marks on commands that were never acknowledged, the collection of old
-- rows, and the counts of the health endpoint.
use text.Mathlib.Text.{◌==◌}
use cliqhub_core.Prelude.{
  ℕ, ◌-◌, Bool, true, false, not, ◌&&◌, ◌||◌, Option, none, some, ltb, leb, is_none, filter, length,
}
use cliqhub_core.Outbox.{Entry, AckStatus, Store}
use cliqhub_core.Prelude.{update_where}

-- A time that is there and lies before the threshold: `now - age`, which may be below zero.
abbrev pub is_older : ℕ → ℕ → Option ℕ → Bool
is_older now age none = false
is_older now age (some t) = ltb t (now - age)

abbrev pub is_stale : ℕ → ℕ → Entry → Bool
is_stale now age e = is_none e.acked_at && is_none e.ack_status && is_older now age e.delivered_at

abbrev pub timed_out : Entry → Entry
timed_out e = record e { ack_status = some AckStatus.timeout }

-- First the commands to execute, after 30 minutes, then all others, after 5.
unfoldable pub sweep_stale_acks : ℕ → Store → Store
unfolding update_where
sweep_stale_acks now s = record s {
  outbox =
      update_where (λ e. not (e.endpoint == "/v1/execute") && is_stale now 300000 e) timed_out
        (update_where (λ e. e.endpoint == "/v1/execute" && is_stale now 1800000 e) timed_out
          s.outbox);
}

abbrev pub is_timeout : Option AckStatus → Bool
is_timeout (some AckStatus.timeout) = true
is_timeout _ = false

-- Over seven days old, and acknowledged, out of tries or timed out.
abbrev pub is_garbage : ℕ → Entry → Bool
is_garbage now e =
    ltb e.created_at (now - 604800000)
    && (not (is_none e.acked_at) || leb e.max_attempts e.attempts || is_timeout e.ack_status)

unfoldable pub gc : ℕ → Store → Store
gc now s = record s { outbox = filter (λ e. not (is_garbage now e)) s.outbox }

pub record Stats : Type 0 where
  pub pending : ℕ
  pub failed : ℕ

unfoldable pub get_command_outbox_stats : Store → Stats
get_command_outbox_stats s = record {
  pending = length (filter (λ e. is_none e.delivered_at && ltb e.attempts e.max_attempts) s.outbox);
  failed = length (filter (λ e. is_none e.delivered_at && leb e.max_attempts e.attempts) s.outbox);
}
