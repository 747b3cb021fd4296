-- ===== src/Lib.antt =====
-- A verification library of cliqhub-core, the hub that stores organisations, realms, daemons, teams
-- and runs and that decides who may do what with them.
--
-- Each request carries an authentication context (`AuthContext`). The route's policy is decided by the
-- engine of src/auth/route_policy/engine.ts against what is stored of realms, orgs and records; the
-- handler then runs with the access that the decision returns. A token carries a grant, whose clamps
-- and checks are in src/auth/grants.ts and src/auth/assert_grant.ts.
--
--   Prelude       shared names: numbers, lists, texts as JavaScript reads them, and their lemmas.
--   Json          bodies, queries and route parameters as values.
--   Auth          the context types of src/schemas/auth_types.ts; Auth/Access is src/auth/access.ts,
--                 Auth/Grants is src/auth/grants.ts (Clamp and Subject hold the laws of the clamps)
--                 and Auth/AssertGrant is src/auth/assert_grant.ts (Confined holds its laws).
--   RoutePolicy   src/auth/route_policy: Policy and Fields (policies and the ids they name), Standing
--                 (realm_standing, judge_standing, judge_realm, judge_org), Engine (records that span
--                 realms, resolve_org_id, resolve_realm), Cases and Decide (decide and decide_team).
--                 Rights states apart from the engine where a level comes from; Levels, Realm,
--                 Spanning, Hidden and the children of Decide compare the engine with it.
--   Outbox        src/services/command_outbox.service.ts: Delivery (enqueue, the poll's query, delivery),
--                 Sweep (late acknowledgments, collection, counts), Reply (src/lib/daemon_reply.ts), Runs
--                 (fail_refused_execute, and fail_if_live of src/services/run.service.ts) and Ack
--                 (src/controllers/command_ack_controller.ts). Rows says what a delivery makes of the
--                 command's row; Tries, Bounded, GivesUp, Ended, Batch, Acked and Enqueued hold
--                 the laws.
--   Queue         src/services/queue.service.ts; Owned and Exclusive hold its laws.
--   Dedup         src/middleware/inbound_dedup.ts; Replay holds its laws.
--   Hugs          src/services/hugs.service.ts, on the tables of src/models/hug.model.ts: Parts (what the
--                 operations share), Files and Answer (respond), Ended (close, the ends, reminders, old
--                 events), Create, Creates and Opened (create, with resolve_channels of
--                 src/services/channel_resolution.service.ts), CatchUp (get_events), Remind
--                 (next_remind_at). Rules says what a result ensures when it is done; Told, Answered
--                 and Ending what one transaction does; Steps makes the transactions a step
--                 relation, over which Numbered, Settled, Final and Commanded are proved; Accepted,
--                 Reminded, CaughtUp, Over, Swept, Placed, Outcome and Retried hold the laws of
--                 single operations.
--   Runs          src/services/run.service.ts (the state of a run and its lease), Reaper
--                 (src/services/run_reaper.service.ts), Force (_load_force_terminate_status, and
--                 _force_terminate_eligibility of src/services/dispatch.service.ts) and Cancel (cancel_run
--                 there), all on the runs of the outbox's store; Leased makes the calls a step
--                 relation, and Leased, Reaped, Agreed, Cancelled and Reported hold the
--                 laws.
--   Invites       src/services/invite_rules.ts: Sort (parse_invite_sort) and Reminders (reminder_due); Sweep
--                 is send_reminders of src/services/invite_sweep.service.ts, and Once holds its law.
--
-- The hub's commands to daemons are rows of the outbox, which the worker delivers and the daemon's
-- acknowledgment completes; where a command to execute a run fails for good, the run is failed too. The
-- outbox's tables are lists, each SQL statement one function on them, and each delivery reads the clock twice:
-- before the call, for the backoff, and after it, for what it writes. A daemon's own requests pass the
-- deduplication first. Jobs of a realm wait in the queue until a daemon claims them; calls on the queue
-- may interleave, so a method that reads and saves is two steps there.
--
-- A run's phase asks people by a hug. Each event of a hug is written with the hug's next number, and its
-- delivery to the daemon is enqueued in the outbox in the same transaction; what the source checks
-- before it opens the transaction, the model checks on a store that may be any older one. An operation
-- that throws returns `refused`, and changes nothing, but that one which opens a hug may have sent notices
-- before.
--
-- A live run holds a lease, which the daemon's reports extend; the reaper crashes the runs whose lease has
-- passed or whose daemon is silent or gone, and a cancel goes to the daemon by the outbox or, where the
-- daemon cannot take it or the run looks stuck, ends the run in the hub. The times that the environment
-- may set keep their defaults.
--
-- A definition has the source's name in the source's spelling; a branch of a long function that has a
-- name of its own is called after the function (`decide_org` is the case 'org' of `decide`). An awaited
-- call of the store is an application of a field of `AccessStore`, so a decision sees one state of the
-- database. A field that may be missing or null is an Option; null and undefined are told apart only
-- where the source tells them apart. Every loop is structural recursion on a list; the only fuel is that
-- of `print` in Prelude/Decimal, which writes a number in decimal: as many digits as the number, plus one.
-- Where `auth!.user!` is read with no user, `user_id` is the empty text.
--
-- Not modelled: the web framework and its routes, the object-relational models, external services
-- (mail, storage, language models, the mesh), and the messages of errors.
pub mod Auth
pub mod Dedup
pub mod Hugs
pub mod Invites
pub mod Json
pub mod Outbox
pub mod Prelude
pub mod Queue
pub mod RoutePolicy
pub mod Runs
