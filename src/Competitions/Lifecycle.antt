-- ===== src/Competitions/Lifecycle.antt =====
-- competitions/lifecycle.go.
use finance_app.Base.{none, some, List, [], ◌∷◌, any_of, if◌then◌else◌}
use finance_app.Base.Text.{Text, codes, text_eq}
use finance_app.Base.Assoc.{Map, lookup}
use finance_app.Base.Result.{Result, ok, err}

pub data LifecycleError : Type 0 where
  invalid_lifecycle_transition : LifecycleError

abbrev pub draft : Text
draft = codes "draft"

abbrev pub published : Text
published = codes "published"

abbrev pub registration_open : Text
registration_open = codes "registration_open"

abbrev pub registration_closed : Text
registration_closed = codes "registration_closed"

abbrev pub active : Text
active = codes "active"

abbrev pub finalizing : Text
finalizing = codes "finalizing"

abbrev pub completed : Text
completed = codes "completed"

abbrev pub cancelled : Text
cancelled = codes "cancelled"

unfoldable pub lifecycle_transitions : Map (List Text)
lifecycle_transitions =
    (draft, published ∷ cancelled ∷ [])
    ∷ (published, registration_open ∷ cancelled ∷ [])
    ∷ (registration_open, registration_closed ∷ cancelled ∷ [])
    ∷ (registration_closed, active ∷ cancelled ∷ [])
    ∷ (active, finalizing ∷ cancelled ∷ [])
    ∷ (finalizing, completed ∷ cancelled ∷ [])
    ∷ (completed, [])
    ∷ (cancelled, [])
    ∷ []

unfoldable pub validate_lifecycle_transition : Text → Text → Result LifecycleError (Unit {0})
validate_lifecycle_transition from to = elim (lookup from lifecycle_transitions) [
  | none ↦ err LifecycleError.invalid_lifecycle_transition
  | some allowed ↦
      if any_of (λ next. text_eq next to) allowed
      then ok tt
      else err LifecycleError.invalid_lifecycle_transition
]
