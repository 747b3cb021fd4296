-- ===== src/Hugs/Rules.antt =====
-- What a result ensures when it is `done`, and the rules for the ways in which results are chained.
use mathlib.Core.Path.{subst}
use cliqhub_core.Prelude.{Bool, true, false, ◌≡◌, refl, Option, none, some, if◌then◌else◌}
use cliqhub_core.Hugs.{HugError, HugResult, done, refused, ◌>>=◌, or_refuse}
use cliqhub_core.Hugs.Parts.{unless}

module _ {ℓ} {A : Type ℓ} (P : A → Type 0) where
  abbrev pub OnDone : HugResult A → Type 0
  OnDone (done a) = P a
  OnDone (refused e) = Unit

  pub OnDone_elim : (r : HugResult A) (a : A) → OnDone r → r ≡ done a → P a
  OnDone_elim r a h e = subst OnDone e h

  pub or_refuse-OnDone :
      (o : Option A) (e : HugError) → ((a : A) → o ≡ some a → P a) → OnDone (or_refuse o e)
  or_refuse-OnDone none e h = tt
  or_refuse-OnDone (some a) e h = h a refl

  pub if-OnDone :
      (b : Bool) (x y : HugResult A)
      → (b ≡ true → OnDone x)
      → (b ≡ false → OnDone y)
      → OnDone (if b then x else y)
  if-OnDone true x y h k = h refl
  if-OnDone false x y h k = k refl

module _ {A : Type 0} (P : A → Type 0) where
  pub unless-OnDone :
      (o : Option HugError) (r : HugResult A) → (o ≡ none → OnDone P r) → OnDone P (unless o r)
  unless-OnDone none r h = h refl
  unless-OnDone (some e) r h = tt

module _ {ℓ κ} {A : Type ℓ} {B : Type κ} (P : B → Type 0) where
  -- A chain, each of whose steps may use that the step before it was done.
  pub bind-OnDone :
      (r : HugResult A) (f : A → HugResult B)
      → ((a : A) → r ≡ done a → OnDone P (f a))
      → OnDone P (r >>= f)
  bind-OnDone (done a) f h = h a refl
  bind-OnDone (refused e) f h = tt

pub OnDone-mono {ℓ} :
    {A : Type ℓ} (P Q : A → Type 0) (r : HugResult A)
    → ((a : A) → P a → Q a)
    → OnDone P r
    → OnDone Q r
OnDone-mono P Q (done a) f h = f a h
OnDone-mono P Q (refused e) f h = tt
