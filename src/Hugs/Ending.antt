-- ===== src/Hugs/Ending.antt =====
-- The end of a hug: nothing happens, or its open row is marked and the requester is told.
use cliqhub_core.Prelude.{if_cases, true, not, ◌≡◌, refl, none, any, inl, inr, ◌⊎◌, arith}
use cliqhub_core.Json.{end}
use cliqhub_core.Hugs.{Hug, HugStore, HugResult, done, refused, NoticeType}
use cliqhub_core.Hugs.Parts.{append_seq, notify}
use cliqhub_core.Hugs.Ended.{
  Ending, expiring, cancelling, EndTimes, end_hug, tell_ended, mark_ended, is_open_hug, notify_end,
  or_unchanged, ended_type,
}
use cliqhub_core.Hugs.Rules.{OnDone, OnDone_elim, bind-OnDone}
use cliqhub_core.Hugs.Told.{Told, Told_beside, deliver-Told, append_seq-Appended}

tell_ended-OnDone :
    (how : Ending) (at : EndTimes) (h : Hug) (s : HugStore)
    → OnDone (Told h s) (tell_ended how at h s)
unfolding tell_ended
tell_ended-OnDone how at h s = bind-OnDone (Told h s) (append_seq h.id s) _ λ (t, seq) e.
    deliver-Told at.tx_id at.sent_at at.written_at h seq (ended_type how) end s t
      (append_seq-Appended h.id s t seq e)

notify_end-Told :
    (how : Ending) (h : Hug) (s t : HugStore) → Told h s t → Told h s (notify_end how h t)
unfolding notify
notify_end-Told expiring h s t w =
    Told_beside h s.artifacts (notify h NoticeType.expired none t).notices s t w
notify_end-Told cancelling h s t w = w

-- Either the store stays, or an open row of the hug was marked and the requester told.
pub end_hug-cases :
    (how : Ending) (at : EndTimes) (h : Hug) (s : HugStore)
    → (end_hug how at h s ≡ s)
      ⊎ ((any (is_open_hug h.id) s.hugs ≡ true)
          × Told h (mark_ended how at.closed_at h.id s) (end_hug how at h s))
unfolding end_hug
end_hug-cases how at h s =
    if_cases
      (λ t.
        (t ≡ s)
        ⊎ ((any (is_open_hug h.id) s.hugs ≡ true) × Told h (mark_ended how at.closed_at h.id s) t))
      (not (any (is_open_hug h.id) s.hugs)) s _ (λ _. inl refl)
      λ n. by_result _ (ground arith) (
        bind-OnDone (Told h start) (tell_ended how at h start) _ λ t e.
          notify_end-Told how h start t (
            OnDone_elim (Told h start) (tell_ended how at h start) t
              (tell_ended-OnDone how at h start) e))
  where
    start : HugStore
    start = mark_ended how at.closed_at h.id s

    by_result :
        (r : HugResult HugStore)
        → any (is_open_hug h.id) s.hugs ≡ true
        → OnDone (Told h start) r
        → (or_unchanged r s ≡ s)
          ⊎ ((any (is_open_hug h.id) s.hugs ≡ true) × Told h start (or_unchanged r s))
    by_result (done t) any_open w = inr (any_open, w)
    by_result (refused e) any_open w = inl refl
