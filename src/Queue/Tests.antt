-- ===== src/Queue/Tests.antt =====
-- The queue on one item.
use cliqhub_core.Prelude.{pos, true, ◌≡◌, refl, sym, List, [], ◌∷◌, In, inl, inr, none, trim}
use cliqhub_core.Json.{null}
use cliqhub_core.Queue.{Item, Kind, Status, of_item, conflict, claim, taken, is_free}
use cliqhub_core.Queue.Owned.{Call, after_calls, Owned, saving_offered, claiming}
use cliqhub_core.Queue.Exclusive.{claim-Owned}

abbrev job : Item
job = record {
  id = "q1";
  realm_id = "r1";
  kind = Kind.run;
  payload = null;
  priority = pos 0;
  status = Status.queued;
  claimed_by = none;
  claimed_at = none;
  run_id = none;
  results = none;
  submitted_by = "u1";
  submitted_at = 1;
  error = none;
  created_at = 1;
  updated_at = 1;
}

-- An offer that was read before the claim and is saved after it, and a second claim.
abbrev late_calls : List Call
late_calls = saving_offered 6 job ∷ claiming 7 "q1" "d2" ∷ []

q1_plain : trim "q1" ≡ "q1"
unfolding trim
q1_plain = refl

job_only : (y : Item) → In y (job ∷ []) → y.id ≡ trim "q1" → y ≡ job
job_only y (inl e) same = sym e
job_only y (inr at) same = absurd at

job_free : is_free (trim "q1") job ≡ true
unfolding trim
job_free = refl

claim-Owned_example :
    ((z : Item) × ((claim 5 "q1" "d1" (job ∷ [])).1 ≡ of_item (taken 5 (trim "d1") z)))
    × Owned (trim "q1") (trim "d1") (after_calls late_calls (claim 5 "q1" "d1" (job ∷ [])).0)
    × ((claim 8 "q1" "d3" (after_calls late_calls (claim 5 "q1" "d1" (job ∷ [])).0)).1 ≡ conflict)
claim-Owned_example =
    claim-Owned 5 8 "q1" "d1" "d3" (job ∷ []) job late_calls (unfold trim in refl)
      (unfold trim in refl) (unfold trim in refl) (inl refl) job_free job_only
