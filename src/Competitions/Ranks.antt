-- ===== src/Competitions/Ranks.antt =====
-- How far along its life a status is.
use finance_app.Base.{
  ℕ, ◌≤◌, ◌<◌, ◌≡◌, subst, ◌⊎◌, inl, inr, true, some, List, [], ◌∷◌, All, any_of, if◌then◌else◌,
  arith, Bool-cases, Option-cases,
}
use finance_app.Base.Text.{Text, text_eq, text_eq_iff}
use finance_app.Base.Assoc.{Map, lookup}
use finance_app.Base.Result.{ok}
use finance_app.Competitions.Lifecycle.{
  draft, published, registration_open, registration_closed, active, finalizing, completed,
  cancelled, lifecycle_transitions, validate_lifecycle_transition,
}

-- How far along its life an edition is.
unfoldable pub rank : Text → ℕ
rank s =
    if text_eq s draft
    then 0
    else if text_eq s published
    then 1
    else if text_eq s registration_open
    then 2
    else if text_eq s registration_closed
    then 3
    else if text_eq s active
    then 4
    else if text_eq s finalizing
    then 5
    else if text_eq s cancelled
    then 6
    else if text_eq s completed
    then 7
    else 0

module _ (P : Text → Text → Type 0) where
  abbrev AllNext : Map (List Text) → Type 0
  AllNext [] = Unit
  AllNext ((from, allowed) ∷ m) = All (P from) allowed × AllNext m

  allowed_holds :
      (from to : Text) (allowed : List Text)
      → any_of (λ next. text_eq next to) allowed ≡ true
      → All (P from) allowed
      → P from to
  allowed_holds from to [] h a = absurd (ground arith)
  allowed_holds from to (t ∷ ts) h a = elim (Bool-cases (text_eq t to)) [
    | inl same ↦ subst (P from) ((text_eq_iff t to).0 same) a.0
    | inr other ↦ allowed_holds from to ts (ground arith) a.1
  ]

  lookup_holds :
      (from : Text) (allowed : List Text) (m : Map (List Text))
      → lookup from m ≡ some allowed
      → AllNext m
      → All (P from) allowed
  unfolding lookup
  lookup_holds from allowed [] h a = absurd (ground arith)
  lookup_holds from allowed ((k, ts) ∷ m) h a = elim (Bool-cases (text_eq k from)) [
    | inl same ↦
        (let same_list : ts ≡ allowed = ground arith in
          subst (All (P from)) same_list
            (subst (λ s. All (P s) ts) ((text_eq_iff k from).0 same) a.0))
    | inr other ↦ lookup_holds from allowed m (ground arith) a.1
  ]

  transition_holds :
      (from to : Text)
      → AllNext lifecycle_transitions
      → validate_lifecycle_transition from to ≡ ok tt
      → P from to
  unfolding validate_lifecycle_transition
  transition_holds from to all h = elim (Option-cases (lookup from lifecycle_transitions)) [
    | inl missing ↦ absurd (ground arith)
    | inr (allowed, found) ↦
        allowed_holds from to allowed (ground arith)
          (lookup_holds from allowed lifecycle_transitions found all)
  ]

-- A transition goes up.
pub transition-rises :
    (from to : Text) → validate_lifecycle_transition from to ≡ ok tt → rank from < rank to
unfolding lifecycle_transitions rank text_eq
transition-rises from to h =
    transition_holds (λ a b. rank a < rank b) from to
      (
        (omega arith, (omega arith, tt)),
        (
          (omega arith, (omega arith, tt)),
          (
            (omega arith, (omega arith, tt)),
            (
              (omega arith, (omega arith, tt)),
              (
                (omega arith, (omega arith, tt)),
                ((omega arith, (omega arith, tt)), (tt, (tt, tt))),
              ),
            ),
          ),
        ),
      )
      h

-- From the end of its ranking on an edition can only be completed.
pub late-rises : (s : Text) → 5 ≤ rank s → (s ≡ completed) ⊎ (rank s < rank completed)
unfolding rank text_eq
late-rises s h = elim (Bool-cases (text_eq s completed)) [
  | inl same ↦ inl ((text_eq_iff s completed).0 same)
  | inr other ↦ inr (ground arith)
]

pub finalizing-rank : 5 ≤ rank finalizing
unfolding rank text_eq
finalizing-rank = omega arith
