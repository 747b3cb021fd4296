-- ===== src/Invites/Sort.antt =====
-- invite_rules.ts, `parse_invite_sort`.
use Prim.Native.Char.{Char}
use Prim.Native.String.append
use Prim.Native.String.{[], ◌∷◌, ◌++◌}
use text.Mathlib.Text.{◌==◌}
use cliqhub_core.Prelude.{
  ◌↔◌, String, true, ◌≡◌, ◌≢◌, refl, sym, ap, ◌∙◌, Option, none, some, if◌then◌else◌, includes,
  concat, Bool-cases, inl, inr, eq_iff, includes-In, In,
}
use mathlib.Core.Path.{subst}
use mathlib.Core.List.{List}

pub data Direction : Type 0 where
  ascending descending : Direction

pub record InviteSort : Type 0 where
  pub field : String
  pub dir : Direction

abbrev pub invite_sort_fields : List String
invite_sort_fields = List.◌∷◌ "created_at" (
    List.◌∷◌ "expires_at" (
      List.◌∷◌ "last_sent_at"
        (List.◌∷◌ "email" (List.◌∷◌ "role" (List.◌∷◌ "status" (List.◌∷◌ "send_count" List.[]))))))

unfoldable pub checked_field : String → Direction → Option InviteSort
unfolding includes
checked_field field dir =
    if includes invite_sort_fields field then some record { field = field; dir = dir } else none

-- No `sort`, or an empty one, is newest first; an unknown field is refused.
unfoldable pub parse_invite_sort : String → Option InviteSort
unfolding checked_field
parse_invite_sort [] = some record { field = "created_at"; dir = descending }
parse_invite_sort (c ∷ rest) =
    if (c ∷ []) == "-" then checked_field rest descending else checked_field (c ∷ rest) ascending

abbrev pub print_sort : InviteSort → String
print_sort s = elim (s.dir) [ ascending ↦ s.field | descending ↦ concat "-" s.field ]

checked_field-some :
    (field : String) (dir : Direction) (r : InviteSort)
    → checked_field field dir ≡ some r
    → (r ≡ record { field = field; dir = dir }) × (includes invite_sort_fields field ≡ true)
unfolding checked_field
checked_field-some field dir r e = elim (Bool-cases (includes invite_sort_fields field)) [
  | inl t ↦ (one_sort _ r (rw t at e), t)
  | inr n ↦ absurd (no_sort (rw n at e))
]
  where
    one_sort : (a b : InviteSort) → some a ≡ some b → b ≡ a
    one_sort a b q = cc

    no_sort : none ≡ some r → ⊥
    no_sort q = cc

Reads : Direction → String → Type 0
Reads dir f =
    parse_invite_sort (print_sort record { field = f; dir = dir })
    ≡ some record { field = f; dir = dir }

each-Reads : (dir : Direction) (f : String) → In f invite_sort_fields → Reads dir f
unfolding parse_invite_sort Reads
each-Reads ascending f at = elim at [
  | inl a ↦ subst (Reads ascending) a refl
  | inr (inl a) ↦ subst (Reads ascending) a refl
  | inr (inr (inl a)) ↦ subst (Reads ascending) a refl
  | inr (inr (inr (inl a))) ↦ subst (Reads ascending) a refl
  | inr (inr (inr (inr (inl a)))) ↦ subst (Reads ascending) a refl
  | inr (inr (inr (inr (inr (inl a))))) ↦ subst (Reads ascending) a refl
  | inr (inr (inr (inr (inr (inr (inl a)))))) ↦ subst (Reads ascending) a refl
  | inr (inr (inr (inr (inr (inr (inr n)))))) ↦ absurd n
]
each-Reads descending f at = elim at [
  | inl a ↦ subst (Reads descending) a refl
  | inr (inl a) ↦ subst (Reads descending) a refl
  | inr (inr (inl a)) ↦ subst (Reads descending) a refl
  | inr (inr (inr (inl a))) ↦ subst (Reads descending) a refl
  | inr (inr (inr (inr (inl a)))) ↦ subst (Reads descending) a refl
  | inr (inr (inr (inr (inr (inl a))))) ↦ subst (Reads descending) a refl
  | inr (inr (inr (inr (inr (inr (inl a)))))) ↦ subst (Reads descending) a refl
  | inr (inr (inr (inr (inr (inr (inr n)))))) ↦ absurd n
]

one_more : (c : Char) (rest : String) → ((c ∷ []) ++ rest) ≡ c ∷ rest
one_more c rest = (λ i. append.cons c [] rest i) ∙ ap (λ z. c ∷ z) (λ i. append.nil rest i)

-- A text that is not empty is read as a sort exactly when the sort is by one of the fields and the text
-- is how the query writes it.
pub parse_invite_sort-print :
    (s : String) (r : InviteSort)
    → s ≢ ""
    → (parse_invite_sort s ≡ some r)
      ↔ ((includes invite_sort_fields r.field ≡ true) × (print_sort r ≡ s))
unfolding parse_invite_sort Reads
parse_invite_sort-print s r some_text = (
  λ e. written s some_text e,
  λ (known, q).
      subst (λ z. parse_invite_sort z ≡ some r) q
        (each-Reads r.dir r.field (includes-In invite_sort_fields r.field known)),
)
  where
    known_field :
        (f : String) (d : Direction)
        → r ≡ record { field = f; dir = d }
        → includes invite_sort_fields f ≡ true
        → includes invite_sort_fields r.field ≡ true
    known_field f d q h = subst (λ z. includes invite_sort_fields z.field ≡ true) (sym q) h

    written :
        (t : String)
        → t ≢ ""
        → parse_invite_sort t ≡ some r
        → (includes invite_sort_fields r.field ≡ true) × (print_sort r ≡ t)
    written [] not_empty e = absurd (not_empty refl)
    written (c ∷ rest) not_empty e = elim (Bool-cases ((c ∷ []) == "-")) [
      | inl t ↦
          let dash : (c ∷ []) ≡ "-" = (eq_iff (c ∷ []) "-").0 t in
          let (q, h) = checked_field-some rest descending r (rw t at e) in
          (
            known_field rest descending q h,
            ap print_sort q ∙ (ap (λ z. concat z rest) (sym dash) ∙ one_more c rest),
          )
      | inr n ↦
          let (q, h) = checked_field-some (c ∷ rest) ascending r (rw n at e) in
          (known_field (c ∷ rest) ascending q h, ap print_sort q)
    ]
