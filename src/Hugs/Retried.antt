-- ===== src/Hugs/Retried.antt =====
-- A call of `create` of hugs.service.ts that is made again.
use mathlib.Core.Path.{subst}
use cliqhub_core.Prelude.{
  ℕ, String, false, ◌≡◌, refl, sym, ap, ◌∷◌, none, some, is_empty, truthy, distinct, inl, inr,
}
use cliqhub_core.Hugs.{HugStore, HugResult, done, refused}
use cliqhub_core.Hugs.Opened.{store_hug, new_hug}
use cliqhub_core.Hugs.Create.{HugRequest, OpenContext, given_or, names_of}
use cliqhub_core.Hugs.Creates.{
  Prepared, adopted, existing_hug, hug_input, prepare, open_prepared, create,
}
use cliqhub_core.Hugs.Placed.{prepare-adopted, find_hug-last}
use cliqhub_core.Hugs.Outcome.{Placing, Outcome, create-Outcome}

create-prepared :
    (ctx : OpenContext) (input : HugRequest) (fresh : String) (now : ℕ) (s t : HugStore)
    (id : String)
    → create ctx input fresh now s ≡ (t, done id)
    → (p : Prepared) × (prepare ctx input s ≡ done p)
unfolding create open_prepared
create-prepared ctx input fresh now s t id = was_done (prepare ctx input s) refl
  where
    was_done :
        (r : HugResult Prepared)
        → prepare ctx input s ≡ r
        → open_prepared ctx input fresh now s r ≡ (t, done id)
        → (p : Prepared) × (prepare ctx input s ≡ done p)
    was_done (done p) h e = (p, h)
    was_done (refused x) h e = absurd (unlike (ap (λ q. q.1) e))
      where
        unlike : refused x ≡ done id → ⊥
        unlike z = cc

-- A request that names its hug, made again after it was answered with an id, at any time and whatever id is
-- made up for it, is answered with the same id and changes nothing.
pub create_twice :
    (ctx : OpenContext) (input : HugRequest) (key fresh fresh_again : String) (now later : ℕ)
    (s t : HugStore) (id : String)
    → input.hug_id ≡ some key
    → is_empty key ≡ false
    → create ctx input fresh now s ≡ (t, done id)
    → create ctx input fresh_again later t ≡ (t, done id)
unfolding create open_prepared store_hug new_hug
create_twice ctx input key fresh fresh_again now later s t id given filled e =
    let (p, h) = create-prepared ctx input fresh now s t id e in
    elim (subst (Outcome ctx input fresh now s) e (create-Outcome ctx input fresh now s)) [
      | inl ((hug, there, same_run, same_id), same) ↦ again (hug.id) same_id (
          prepare-adopted ctx input s t p hug h
            (subst (λ x. existing_hug (truthy input.hug_id) x.hugs ≡ some hug) (sym same) there)
            same_run)
      | inr (w, named) ↦ again id refl (prepare-adopted ctx input s t p _ h (stored w named) refl)
    ]
  where
    again :
        (k : String)
        → k ≡ id
        → prepare ctx input t ≡ done (adopted k)
        → create ctx input fresh_again later t ≡ (t, done id)
    again k same q = rw (q, same) refl

    key_of : truthy input.hug_id ≡ some key
    key_of = rw (given, filled) refl

    stored :
        (w : Placing ctx input now s t id)
        → id ≡ given_or input.hug_id fresh
        → existing_hug (truthy input.hug_id) t.hugs
          ≡ some (
              new_hug id now (
                hug_input ctx input w.checked
                  (distinct (names_of w.checked.spec.channels))
                  (w.first ∷ w.others)
                  w.denied))
    stored w named =
        rw (key_of, w.is_stored.hugs)
          (find_hug-last key s.hugs _ (subst (λ o. existing_hug o s.hugs ≡ none) key_of w.is_free)
            (subst (λ o. id ≡ given_or o fresh) given named))
