-- ===== src/Hugs/Placed.antt =====
-- What `create` of hugs.service.ts makes of a request to open a hug.
use text.Mathlib.Text.{◌==◌}
use mathlib.Core.Path.{subst}
use cliqhub_core.Prelude.{
  ℕ, String, true, ◌≡◌, refl, List, [], ◌∷◌, ◌++◌, Option, none, some, truthy, Bool-cases, inl, inr,
  eq_iff,
}
use cliqhub_core.Json.{Fields}
use cliqhub_core.Hugs.{
  Hug, HugStore, HugError, invalid_hug, not_found, conflict, HugResult, done, refused, ◌>>=◌,
  or_refuse, find_hug,
}
use cliqhub_core.Hugs.Create.{check_context_artifacts, HugRequest, HugSpec, OpenContext}
use cliqhub_core.Hugs.Creates.{
  Checked, Prepared, adopted, ready, existing_hug, checked_params, adopt_or, prepare, placed,
}

bind-done :
    {A B : Type 0} (r : HugResult A) (f : A → HugResult B) (b : B)
    → (r >>= f) ≡ done b
    → (a : A) × (r ≡ done a) × (f a ≡ done b)
bind-done (done a) f b e = (a, refl, e)
bind-done (refused x) f b e = cc

pub find_hug-last :
    (id : String) (hugs : List Hug) (h : Hug)
    → find_hug id hugs ≡ none
    → h.id ≡ id
    → find_hug id (hugs ++ (h ∷ [])) ≡ some h
find_hug-last id [] h e same = rw ((eq_iff h.id id).1 same) refl
find_hug-last id (x ∷ xs) h e same = elim (Bool-cases (x.id == id)) [
  | inl t ↦ absurd (some_not_none x (rw t at e))
  | inr n ↦ rw n (find_hug-last id xs h (rw n at e) same)
]
  where
    some_not_none : (y : Hug) → some y ≡ none → ⊥
    some_not_none y z = cc

-- A request whose hug is there by then, of the same run, adopts it.
pub prepare-adopted :
    (ctx : OpenContext) (input : HugRequest) (s t : HugStore) (p : Prepared) (h : Hug)
    → prepare ctx input s ≡ done p
    → existing_hug (truthy input.hug_id) t.hugs ≡ some h
    → h.run_id ≡ input.run_id
    → prepare ctx input t ≡ done (adopted h.id)
unfolding prepare
prepare-adopted ctx input s t p h e there same =
    let (spec, e1, f1) = bind-done (or_refuse (ctx.parse_spec input.spec) invalid_hug) _ p e in
    let (params, e2, f2) =
      bind-done (checked_params (ctx.check_params spec.template spec.params)) _ p f1 in
    let (minutes, e3, f3) = bind-done (or_refuse spec.expires_in_min invalid_hug) _ p f2 in
    rw (e1, e2, e3, there, (eq_iff h.run_id input.run_id).1 same) refl

prepared_of : (a b : Prepared) → done a ≡ done b → a ≡ b
prepared_of a b z = cc

refused_not_prepared : (x : HugError) (p : Prepared) → refused x ≡ done p → ⊥
refused_not_prepared x p z = cc

placed-ready :
    (ctx : OpenContext) (input : HugRequest) (spec : HugSpec) (params : Fields) (minutes : ℕ)
    (s : HugStore) (p : Prepared)
    → placed ctx input spec params minutes s ≡ done p
    → (c : Checked) × (ready c ≡ p)
      × (check_context_artifacts c.params input.run_id s.artifacts ≡ true)
unfolding placed
placed-ready ctx input spec params minutes s p e =
    let (org, e1, f1) =
      bind-done (or_refuse (truthy (ctx.org_of input.realm_id)) not_found) _ p e in
    elim (Bool-cases (check_context_artifacts params input.run_id s.artifacts)) [
      | inl t ↦ (_, prepared_of _ p (rw t at f1), t)
      | inr n ↦ absurd (refused_not_prepared invalid_hug p (rw n at f1))
    ]

-- A prepared request is a retry of a hug that is there, of the same run, or it has a free id and its
-- artifacts are ready.
abbrev pub PreparedTo : HugRequest → HugStore → Prepared → Type 0
PreparedTo input s (adopted id) =
    (h : Hug) × (existing_hug (truthy input.hug_id) s.hugs ≡ some h)
    × (h.run_id ≡ input.run_id)
    × (h.id ≡ id)
PreparedTo input s (ready c) =
    (existing_hug (truthy input.hug_id) s.hugs ≡ none)
    × (check_context_artifacts c.params input.run_id s.artifacts ≡ true)

adopt_or-PreparedTo :
    (ctx : OpenContext) (input : HugRequest) (spec : HugSpec) (params : Fields) (minutes : ℕ)
    (s : HugStore) (o : Option Hug) (p : Prepared)
    → existing_hug (truthy input.hug_id) s.hugs ≡ o
    → adopt_or input o (placed ctx input spec params minutes s) ≡ done p
    → PreparedTo input s p
adopt_or-PreparedTo ctx input spec params minutes s (some h) p there e =
    elim (Bool-cases (h.run_id == input.run_id)) [
      | inl t ↦
          subst (PreparedTo input s) (prepared_of (adopted h.id) p (rw t at e))
            (h, there, (eq_iff h.run_id input.run_id).0 t, refl)
      | inr n ↦ absurd (refused_not_prepared conflict p (rw n at e))
    ]
adopt_or-PreparedTo ctx input spec params minutes s none p there e =
    let (c, same, is_ready) = placed-ready ctx input spec params minutes s p e in
    subst (PreparedTo input s) same (there, is_ready)

pub prepare-PreparedTo :
    (ctx : OpenContext) (input : HugRequest) (s : HugStore) (p : Prepared)
    → prepare ctx input s ≡ done p
    → PreparedTo input s p
unfolding prepare
prepare-PreparedTo ctx input s p e =
    let (spec, e1, f1) = bind-done (or_refuse (ctx.parse_spec input.spec) invalid_hug) _ p e in
    let (params, e2, f2) =
      bind-done (checked_params (ctx.check_params spec.template spec.params)) _ p f1 in
    let (minutes, e3, f3) = bind-done (or_refuse spec.expires_in_min invalid_hug) _ p f2 in
    adopt_or-PreparedTo ctx input spec params minutes s (existing_hug (truthy input.hug_id) s.hugs)
      p refl f3
