-- ===== src/Hugs/Steps.antt =====
-- The transactions on hugs as steps. The store `seen` from which a step read before its transaction
-- may be any: whatever came between is covered.
use text.Mathlib.Text.{◌==◌}
use cliqhub_core.Prelude.{
  if_cases, ℕ, String, Bool, ◌≡◌, refl, List, [], ◌∷◌, none, some, any, update_where,
}
use cliqhub_core.Hugs.{
  Hug, HugStatus, HugStore, HugContext, done, or_refuse, not_found, find_hug, NoticeType,
}
use cliqhub_core.Hugs.Parts.{notify}
use cliqhub_core.Hugs.Answer.{Attempt, Answer, respond}
use cliqhub_core.Hugs.Ended.{
  Ending, EndTimes, close, owned_by, end_hug, remind_hug, remind_channels, rescheduled,
  unanswered_channel_ids, delete_old_events, is_open_hug, closed_with,
}
use cliqhub_core.Hugs.Opened.{CreateHugInput, store_hug}
use cliqhub_core.Hugs.Rules.{OnDone, OnDone_elim, bind-OnDone}

pub data HugStep (ctx : HugContext) : HugStore → HugStore → Type 0 where
  opening :
      (id : String) (now : ℕ) (input : CreateHugInput) (s : HugStore)
      → find_hug id s.hugs ≡ none
      → HugStep ctx s (store_hug id now input s)
  responding :
      (a : Attempt) (seen : HugStore) (input : Answer) (s t : HugStore) (seq : ℕ)
      → respond ctx a seen input s ≡ done (t, seq)
      → HugStep ctx s t
  closing :
      (seen : HugStore) (now : ℕ) (hug_id outcome daemon_id : String) (s t : HugStore)
      (status : HugStatus)
      → close seen now hug_id outcome daemon_id s ≡ done (t, status)
      → HugStep ctx s t
  ending :
      (how : Ending) (at : EndTimes) (h : Hug) (s : HugStore) → HugStep ctx s (end_hug how at h s)
  reminding : (now : ℕ) (h : Hug) (s : HugStore) → HugStep ctx s (remind_hug now h s)
  cleaning : (now : ℕ) (s : HugStore) → HugStep ctx s (delete_old_events now s)

pub data HugSteps (ctx : HugContext) : HugStore → HugStore → Type 0 where
  stop : (s : HugStore) → HugSteps ctx s s
  next : (s t u : HugStore) → HugStep ctx s t → HugSteps ctx t u → HugSteps ctx s u

-- What a close or a reminder does to the tables.
pub record Changed (p : Hug → Bool) (f : Hug → Hug) (s t : HugStore) : Type 0 where
  pub hugs_after : t.hugs ≡ update_where p f s.hugs
  pub same_events : t.hug_events ≡ s.hug_events
  pub same_queue : t.queue ≡ s.queue

abbrev ClosedTo : ℕ → String → String → HugStore → HugStore × HugStatus → Type 0
ClosedTo now hug_id outcome s (t, status) =
    Changed (is_open_hug hug_id) (closed_with outcome now) s t

close-OnDone :
    (seen : HugStore) (now : ℕ) (hug_id outcome daemon_id : String) (s : HugStore)
    → OnDone (ClosedTo now hug_id outcome s) (close seen now hug_id outcome daemon_id s)
unfolding close notify
close-OnDone seen now hug_id outcome daemon_id s =
    bind-OnDone P (or_refuse (find_hug hug_id seen.hugs) not_found) _ λ found _.
      bind-OnDone P (owned_by daemon_id found) _ λ owner _.
        bind-OnDone P (or_refuse (find_hug hug_id marked) not_found) _ λ h _.
          if_cases (Changed (is_open_hug hug_id) (closed_with outcome now) s)
            (any (is_open_hug hug_id) s.hugs)
            (notify h NoticeType.closed (some outcome) (record s { hugs = marked }))
            (record s { hugs = marked })
            (λ _. record { hugs_after = refl; same_events = refl; same_queue = refl })
            (λ _. record { hugs_after = refl; same_events = refl; same_queue = refl })
  where
    P : HugStore × HugStatus → Type 0
    P = ClosedTo now hug_id outcome s

    marked : List Hug
    marked = update_where (is_open_hug hug_id) (closed_with outcome now) s.hugs

pub close-Changed :
    (seen : HugStore) (now : ℕ) (hug_id outcome daemon_id : String) (s t : HugStore)
    (status : HugStatus)
    → close seen now hug_id outcome daemon_id s ≡ done (t, status)
    → Changed (is_open_hug hug_id) (closed_with outcome now) s t
close-Changed seen now hug_id outcome daemon_id s t status e =
    OnDone_elim (ClosedTo now hug_id outcome s) (close seen now hug_id outcome daemon_id s)
      (t, status) (close-OnDone seen now hug_id outcome daemon_id s) e

pub remind_hug-Changed :
    (now : ℕ) (h : Hug) (s : HugStore)
    → Changed (λ row. row.id == h.id) (rescheduled now h) s (remind_hug now h s)
unfolding remind_hug
remind_hug-Changed now h s = sent (unanswered_channel_ids h s)
  where
    sent :
        (cs : List String)
        → Changed
            (λ row. row.id == h.id)
            (rescheduled now h)
            s
            (record (remind_channels h cs s) {
              hugs =
                  update_where
                    (λ row. row.id == h.id)
                    (rescheduled now h)
                    (remind_channels h cs s).hugs;
            })
    sent [] = record { hugs_after = refl; same_events = refl; same_queue = refl }
    sent (c ∷ cs) = record { hugs_after = refl; same_events = refl; same_queue = refl }
