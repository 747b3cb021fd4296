-- ===== src/Runs/Reaper.antt =====
-- src/services/run_reaper.service.ts: live runs whose daemon or lease is gone are crashed.
use cliqhub_core.Prelude.{
  ℕ, ◌-◌, String, Bool, true, false, not, ◌&&◌, List, ◌++◌, Option, none, some, map, filter, ltb,
  includes, update_where,
}
use cliqhub_core.Outbox.{Run, Store}
use cliqhub_core.Outbox.Runs.{is_live}
use cliqhub_core.Runs.{Daemon, ended_run, crashed_events}

unfoldable pub crash_and_emit : (Run → Bool) → ℕ → String → Store → Store
unfolding update_where
crash_and_emit p now reason s = record s {
  runs = update_where p (ended_run now "crashed" (some reason)) s.runs;
  events = s.events ++ crashed_events reason (filter p s.runs);
}

abbrev pub is_silent : ℕ → Daemon → Bool
is_silent cutoff d = elim (d.last_heartbeat) [ none ↦ true | some t ↦ ltb t cutoff ]

abbrev pub is_among : List String → Option String → Bool
is_among ids none = false
is_among ids (some d) = includes ids d

abbrev pub ids_of : List Daemon → List String
ids_of ds = map (λ d. d.id) ds

abbrev pub on_silent : ℕ → List Daemon → Run → Bool
on_silent cutoff daemons r =
    is_live r && is_among (ids_of (filter (is_silent cutoff) daemons)) r.daemon_id

abbrev pub is_unknown : List String → Option String → Bool
is_unknown ids none = false
is_unknown ids (some d) = not (includes ids d)

abbrev pub on_unknown : List Daemon → Run → Bool
on_unknown daemons r = is_live r && is_unknown (ids_of daemons) r.daemon_id

abbrev pub has_passed : ℕ → Option ℕ → Bool
has_passed now none = false
has_passed now (some t) = ltb t now

abbrev pub past_lease : ℕ → Run → Bool
past_lease now r = is_live r && has_passed now r.lease_expires_at

-- The clock where each pass looks for runs, and where it writes.
pub record ReapTimes : Type 0 where
  pub stale_at : ℕ
  pub crashed_at : ℕ
  pub orphaned_at : ℕ
  pub lease_at : ℕ
  pub expired_at : ℕ

-- 90 seconds is the default of the environment's threshold. The daemons are read twice, the second
-- time inside the statement.
unfoldable pub reap : ReapTimes → (seen daemons : List Daemon) → Store → Store
unfolding crash_and_emit includes
reap at seen daemons s =
    let stale =
      crash_and_emit (on_silent (at.stale_at - 90000) seen) at.crashed_at "daemon unresponsive" s in
    let orphaned =
      crash_and_emit (on_unknown daemons) at.orphaned_at "daemon no longer registered" stale in
    crash_and_emit (past_lease at.lease_at) at.expired_at "run lease expired" orphaned
