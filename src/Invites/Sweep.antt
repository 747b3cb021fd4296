-- ===== src/Invites/Sweep.antt =====
-- invite_sweep.service.ts, `send_reminders`, on one of the two tables.
use text.Mathlib.Text.{◌==◌}
use Prim.Native.Nat.{zero, suc}
use cliqhub_core.Prelude.{
  ℕ, ◌+◌, String, Bool, not, ◌&&◌, List, [], ◌∷◌, ◌++◌, Option, none, some, filter, leb, ltb, eqb,
  length, if◌then◌else◌, update_where,
}
use cliqhub_core.Invites.{Invite, InviteKind, invite_kind, is_pending_status}
use cliqhub_core.Invites.Reminders.{reminder_due}

-- 3 days and 1 day before the invite expires.
abbrev pub invite_reminder_offsets_ms : List ℕ
invite_reminder_offsets_ms = 259200000 ∷ 86400000 ∷ []

-- What the sweep learns of an invite's records: whether they are there, and whether its org is deleted.
pub record InviteContext : Type 0 where
  pub has_record : Invite → Bool
  pub is_org_deleted : String → Bool

pub record Reminder : Type 0 where
  pub kind : InviteKind
  pub invite_id : String

pub record InviteStore : Type 0 where
  pub invites : List Invite
  pub sent : List Reminder

-- The query's condition; the later offsets are smaller.
abbrev pub may_be_due : ℕ → Invite → Bool
may_be_due now i =
    is_pending_status i.status
    && ltb now i.expires_at
    && leb i.expires_at (now + 259200000)
    && ltb i.reminders_sent 2

abbrev pub as_read : Invite → Invite → Bool
as_read seen i =
    i.id == seen.id
    && is_pending_status i.status
    && eqb i.expires_at seen.expires_at
    && eqb i.reminders_sent seen.reminders_sent

abbrev pub counted_to : ℕ → Invite → Invite
counted_to n i = record i { reminders_sent = n }

abbrev pub announce : InviteContext → Invite → InviteStore → InviteStore
announce ctx seen s =
    if not (ctx.has_record seen)
    then s
    else if ctx.is_org_deleted seen.org_id
    then s
    else record s {
      sent =
          s.sent ++ (record { kind = invite_kind seen.target seen.role; invite_id = seen.id } ∷ []);
    }

-- The claim pins the row to what was read; it goes on only where it changed exactly one row.
unfoldable pub claim_reminder : InviteContext → Invite → Option ℕ → InviteStore → InviteStore
unfolding update_where
claim_reminder ctx seen none s = s
claim_reminder ctx seen (some n) s =
    let claimed = record s { invites = update_where (as_read seen) (counted_to n) s.invites } in
    if eqb (length (filter (as_read seen) s.invites)) 1 then announce ctx seen claimed else claimed

unfoldable pub remind_invite : InviteContext → ℕ → Invite → InviteStore → InviteStore
unfolding claim_reminder reminder_due
remind_invite ctx now seen s =
    claim_reminder ctx seen (reminder_due invite_reminder_offsets_ms seen now) s

unfoldable pub remind_invites : InviteContext → ℕ → List Invite → InviteStore → InviteStore
unfolding remind_invite
remind_invites ctx now [] s = s
remind_invites ctx now (i ∷ is) s = remind_invites ctx now is (remind_invite ctx now i s)

abbrev pub insert_by_expiry : Invite → List Invite → List Invite
insert_by_expiry i [] = i ∷ []
insert_by_expiry i (x ∷ xs) =
    let rest = insert_by_expiry i xs in
    if leb i.expires_at x.expires_at then i ∷ x ∷ xs else x ∷ rest

abbrev pub by_expiry : List Invite → List Invite
by_expiry [] = []
by_expiry (i ∷ is) = insert_by_expiry i (by_expiry is)

abbrev pub limit_invites : ℕ → List Invite → List Invite
limit_invites zero is = []
limit_invites (suc n) [] = []
limit_invites (suc n) (i ∷ is) = i ∷ limit_invites n is

unfoldable pub send_reminders : InviteContext → ℕ → InviteStore → InviteStore
unfolding remind_invites
send_reminders ctx now s =
    remind_invites ctx now (limit_invites 500 (by_expiry (filter (may_be_due now) s.invites))) s
