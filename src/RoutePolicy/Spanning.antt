-- ===== src/RoutePolicy/Spanning.antt =====
-- Records that span realms, and requests that target several daemons: the engine's two loops against
-- "some realm" and "every daemon".
use cliqhub_core.Prelude.{
  ◌≤◌, String, Bool, true, false, ◌≡◌, refl, List, [], ◌∷◌, arith, Bool-cases, inl, inr, any, all,
  All, ltb, if◌then◌else◌,
}
use cliqhub_core.RoutePolicy.Policy.{RecordKind, Decision, is_allowed, allowed, denied}
use cliqhub_core.RoutePolicy.Engine.{rank_deny, best_after, best_standing, with_record}
use cliqhub_core.RoutePolicy.Cases.{all_daemons}

module _ (judge : String → Decision) where
  abbrev pub allows : String → Bool
  allows r = is_allowed (judge r)

  abbrev better : Decision → String → Decision
  better last rid = if ltb (rank_deny last) (rank_deny (judge rid)) then judge rid else last

  best_after-allowed :
      (last : Decision) (rids : List String)
      → is_allowed last ≡ false
      → is_allowed (best_after judge last rids) ≡ any allows rids
  unfolding best_after
  best_after-allowed last [] h = h
  best_after-allowed last (rid ∷ rids) h = elim (Bool-cases (is_allowed (judge rid))) [
    | inl y ↦ rw y y
    | inr n ↦ rw n (
        best_after-allowed (better last rid) rids
          (elim (Bool-cases (ltb (rank_deny last) (rank_deny (judge rid)))) [
            | inl t ↦ rw t n
            | inr f ↦ rw f h
          ]))
  ]

  -- The loop allows exactly when some realm of the record does.
  pub best_standing-allowed :
      (rid : String) (rids : List String)
      → is_allowed (best_standing judge rid rids) ≡ any allows (rid ∷ rids)
  unfolding best_standing
  best_standing-allowed rid rids = elim (Bool-cases (is_allowed (judge rid))) [
    | inl y ↦ rw y y
    | inr n ↦ rw n (best_after-allowed (judge rid) rids n)
  ]

  abbrev pub AtMost : Decision → String → Type 0
  AtMost d r = rank_deny (judge r) ≤ rank_deny d

  All-mono :
      (d e : Decision) (rids : List String)
      → rank_deny d ≤ rank_deny e
      → All (AtMost d) rids
      → All (AtMost e) rids
  All-mono d e [] h k = tt
  All-mono d e (r ∷ rids) h k = (omega arith, All-mono d e rids h k.1)

  all_daemons-allowed :
      (first : Decision) (ids : List String)
      → is_allowed first ≡ true
      → is_allowed (all_daemons judge first ids) ≡ all allows ids
  unfolding all_daemons
  all_daemons-allowed first [] h = h
  all_daemons-allowed first (id ∷ ids) h = ground (arith, all_daemons-allowed first ids h)

-- What a `with_record` adds does not change the answer.
pub with_record-allowed :
    (d : Decision) (kind : RecordKind) (id : String)
    → is_allowed (with_record d kind id) ≡ is_allowed d
unfolding with_record
with_record-allowed (allowed a u) kind id = refl
with_record-allowed (denied s r a d) kind id = refl
