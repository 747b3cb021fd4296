-- ===== src/Invites/Tests.antt =====
-- One invite, and the theorems of invites at it.
use mathlib.Core.List.{List}
use cliqhub_core.Prelude.{◌+◌, ◌≤◌, ◌↔◌, String, true, false, ◌≡◌, ◌≢◌, refl, some, includes}
use cliqhub_core.Invites.{Invite, org, member, pending, effective_status, expired}
use cliqhub_core.Invites.Sort.{
  descending, parse_invite_sort, print_sort, invite_sort_fields, parse_invite_sort-print,
}
use cliqhub_core.Invites.Reminders.{reminder_due}
use cliqhub_core.Invites.Sweep.{
  InviteContext, InviteStore, invite_reminder_offsets_ms, send_reminders,
}
use cliqhub_core.Invites.Once.{reminders_out, reminders_left, remind_calls, remind_calls-NoMore}

abbrev invite : Invite
invite = record {
  id = "i1";
  org_id = "o1";
  target = org;
  role = member;
  status = pending;
  expires_at = 300000000;
  reminders_sent = 0;
}

abbrev known : InviteContext
known = record { has_record = λ i. true; is_org_deleted = λ id. false }

abbrev invites : InviteStore
invites = record { invites = List.◌∷◌ invite List.[]; sent = List.[] }

-- A day and an hour before the expiry the first reminder is due; in the last hour both count as sent.
first_due : reminder_due invite_reminder_offsets_ms invite 200000000 ≡ some 1
unfolding reminder_due
first_due = refl

both_due : reminder_due invite_reminder_offsets_ms invite 299000000 ≡ some 2
unfolding reminder_due
both_due = refl

swept : reminders_out "i1" (send_reminders known 200000000 invites).sent ≡ 1
unfolding send_reminders
swept = refl

is_over : effective_status invite 300000000 ≡ expired
is_over = refl

remind_calls-NoMore_example :
    reminders_out "i1"
      (remind_calls known
        (List.◌∷◌ (200000000, invite) (List.◌∷◌ (200000001, invite) List.[]))
        invites).sent
    ≤ reminders_out "i1" invites.sent + reminders_left "i1" invites.invites
remind_calls-NoMore_example =
    remind_calls-NoMore "i1" known
      (List.◌∷◌ (200000000, invite) (List.◌∷◌ (200000001, invite) List.[])) invites

not_empty : ◌≢◌ {A = String} "-email" ""
not_empty q = cc

parse_invite_sort-print_example :
    (parse_invite_sort "-email" ≡ some record { field = "email"; dir = descending }) ↔ (
      (includes invite_sort_fields "email" ≡ true)
      × (print_sort record { field = "email"; dir = descending } ≡ "-email"))
parse_invite_sort-print_example =
    parse_invite_sort-print "-email" (record { field = "email"; dir = descending }) not_empty
