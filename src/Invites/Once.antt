-- ===== src/Invites/Once.antt =====
-- Each reminder of an invite goes out once.
use text.Mathlib.Text.{◌==◌}
use cliqhub_core.Prelude.{
  if_cases, ℕ, ◌+◌, ◌-◌, ◌<◌, ◌≤◌, String, Bool, true, false, not, ◌≡◌, refl, ap, ◌∙◌, List, [],
  ◌∷◌, ◌++◌, some, Option-cases, filter, length, eqb, if◌then◌else◌, Bool-cases, inl, inr, arith,
  eq_iff, update_where,
}
use cliqhub_core.Invites.{Invite, invite_kind}
use cliqhub_core.Invites.Reminders.{reminder_due, reminder_due-bound}
use cliqhub_core.Invites.Sweep.{
  InviteContext, InviteStore, Reminder, invite_reminder_offsets_ms, as_read, counted_to, announce,
  claim_reminder, remind_invite,
}

abbrev pub left_of : Invite → ℕ
left_of i = 2 - i.reminders_sent

-- How many reminders the rows of the id still have.
abbrev pub reminders_left : String → List Invite → ℕ
reminders_left id [] = 0
reminders_left id (i ∷ is) = (if i.id == id then left_of i else 0) + reminders_left id is

abbrev pub is_for_invite : String → Reminder → Bool
is_for_invite id r = r.invite_id == id

-- How many reminders went out for the id.
abbrev pub reminders_out : String → List Reminder → ℕ
reminders_out id rs = length (filter (is_for_invite id) rs)

abbrev used : String → Invite → List Invite → ℕ
used id seen rows = if seen.id == id then length (filter (as_read seen) rows) else 0

claim_uses :
    (id : String) (seen : Invite) (n : ℕ) (rows : List Invite)
    → seen.reminders_sent < n
    → n ≤ 2
    → reminders_left id (update_where (as_read seen) (counted_to n) rows) + used id seen rows
      ≤ reminders_left id rows
unfolding update_where
claim_uses id seen n [] more few = elim (Bool-cases (seen.id == id)) [
  | inl t ↦ rw t (omega arith)
  | inr m ↦ rw m (omega arith)
]
claim_uses id seen n (x ∷ xs) more few =
    let rest = claim_uses id seen n xs more few in
    elim (Bool-cases (as_read seen x)) [
      | inr m ↦ elim (Bool-cases (seen.id == id)) [
        | inl t ↦ let r = rw t at rest in rw (m, t) (omega arith)
        | inr k ↦ let r = rw k at rest in rw (m, k) (omega arith)
      ]
      | inl t ↦
          let x_id : x.id ≡ seen.id = ground (arith, eq_iff x.id seen.id) in
          let x_sent : x.reminders_sent ≡ seen.reminders_sent = ground arith in
          elim (Bool-cases (seen.id == id)) [
            | inl u ↦
                let v : (x.id == id) ≡ true = ap (λ z. z == id) x_id ∙ u in
                let r = rw u at rest in rw (t, u, v) (omega arith)
            | inr k ↦
                let v : (x.id == id) ≡ false = ap (λ z. z == id) x_id ∙ k in
                let r = rw k at rest in rw (t, k, v) (omega arith)
          ]
    ]

reminders_out_more :
    (id : String) (r : Reminder) (rs : List Reminder)
    → reminders_out id (rs ++ (r ∷ [])) ≡ reminders_out id rs + (if r.invite_id == id then 1 else 0)
reminders_out_more id r [] = elim (Bool-cases (r.invite_id == id)) [
  | inl t ↦ rw t refl
  | inr n ↦ rw n refl
]
reminders_out_more id r (x ∷ xs) =
    let rest = reminders_out_more id r xs in
    elim (Bool-cases (x.invite_id == id)) [ inl t ↦ rw t (omega arith) | inr n ↦ rw n rest ]

-- The announcement sends at most one reminder, of the invite that was read.
abbrev OneAtMost : String → Invite → InviteStore → InviteStore → Type 0
OneAtMost id seen s t =
    (reminders_out id t.sent ≤ reminders_out id s.sent + (if seen.id == id then 1 else 0))
    × (t.invites ≡ s.invites)

announce-OneAtMost :
    (id : String) (ctx : InviteContext) (seen : Invite) (s : InviteStore)
    → OneAtMost id seen s (announce ctx seen s)
announce-OneAtMost id ctx seen s =
    if_cases (OneAtMost id seen s) (not (ctx.has_record seen)) s _ (λ _. (omega arith, refl))
      λ _.
        if_cases (OneAtMost id seen s) (ctx.is_org_deleted seen.org_id) s _
          (λ _. (omega arith, refl))
          λ _.
            let more =
              reminders_out_more id
                (record { kind = invite_kind seen.target seen.role; invite_id = seen.id }) s.sent in
            (omega arith, refl)

-- Reminders that went out and those left, together, do not grow.
abbrev pub NoMore : String → InviteStore → InviteStore → Type 0
NoMore id s t =
    reminders_out id t.sent + reminders_left id t.invites
    ≤ reminders_out id s.sent + reminders_left id s.invites

claim_reminder-NoMore :
    (id : String) (ctx : InviteContext) (seen : Invite) (n : ℕ) (s : InviteStore)
    → seen.reminders_sent < n
    → n ≤ 2
    → NoMore id s (claim_reminder ctx seen (some n) s)
unfolding claim_reminder
claim_reminder-NoMore id ctx seen n s more few =
    let uses = claim_uses id seen n s.invites more few in
    if_cases (NoMore id s) (eqb (length (filter (as_read seen) s.invites)) 1)
      (announce ctx seen claimed) claimed
      (λ one.
        let (sent, same_invites) = announce-OneAtMost id ctx seen claimed in
        let single : length (filter (as_read seen) s.invites) ≡ 1 = ground arith in
        let kept = ap (reminders_left id) same_invites in
        elim (Bool-cases (seen.id == id)) [
          | inl t ↦ let a = rw t at uses in let b = rw t at sent in omega arith
          | inr m ↦ let a = rw m at uses in let b = rw m at sent in omega arith
        ])
      (λ _. omega arith)
  where
    claimed : InviteStore
    claimed = record s { invites = update_where (as_read seen) (counted_to n) s.invites }

remind_invite-NoMore :
    (id : String) (ctx : InviteContext) (now : ℕ) (seen : Invite) (s : InviteStore)
    → NoMore id s (remind_invite ctx now seen s)
unfolding remind_invite claim_reminder
remind_invite-NoMore id ctx now seen s =
    elim (Option-cases (reminder_due invite_reminder_offsets_ms seen now)) [
      | inl n ↦ rw n (omega arith)
      | inr (n, e) ↦
          let (more, few) = reminder_due-bound invite_reminder_offsets_ms seen now n e in
          rw e (claim_reminder-NoMore id ctx seen n s more few)
    ]

-- Calls at any times, each on a row as it was read at any time.
unfoldable pub remind_calls : InviteContext → List (ℕ × Invite) → InviteStore → InviteStore
unfolding remind_invite
remind_calls ctx [] s = s
remind_calls ctx ((now, seen) ∷ calls) s = remind_calls ctx calls (remind_invite ctx now seen s)

remind_calls_total :
    (id : String) (ctx : InviteContext) (calls : List (ℕ × Invite)) (s : InviteStore)
    → NoMore id s (remind_calls ctx calls s)
unfolding remind_calls
remind_calls_total id ctx [] s = omega arith
remind_calls_total id ctx ((now, seen) ∷ calls) s =
    let first = remind_invite-NoMore id ctx now seen s in
    let rest = remind_calls_total id ctx calls (remind_invite ctx now seen s) in omega arith

-- However often the sweep runs, and however old the rows are that it read: the reminders that go out for
-- an invite that is not sent again are no more than those that its rows had left: for the one row of a
-- new invite, two.
pub remind_calls-NoMore :
    (id : String) (ctx : InviteContext) (calls : List (ℕ × Invite)) (s : InviteStore)
    → reminders_out id (remind_calls ctx calls s).sent
      ≤ reminders_out id s.sent + reminders_left id s.invites
remind_calls-NoMore id ctx calls s = let all = remind_calls_total id ctx calls s in omega arith
