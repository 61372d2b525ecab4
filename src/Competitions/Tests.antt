-- ===== src/Competitions/Tests.antt =====
-- The life of an edition that is cancelled between the check and the write of its final results.
use finance_app.Base.{◌≡◌, refl, false, some, List, [], ◌∷◌}
use finance_app.Base.Assoc
use finance_app.Base.Text
use finance_app.Base.Text.{codes, text_eq}
use finance_app.Competitions.Lifecycle
use finance_app.Competitions.Lifecycle.{
  draft, published, registration_open, registration_closed, active, finalizing, completed,
  cancelled,
}
use finance_app.Competitions.Editions
use finance_app.Competitions.Editions.{Competition, zero_competition}
use finance_app.Competitions.Moves
use finance_app.Competitions.Moves.{Call, start, run, find}
use finance_app.Competitions.History.{status_never_returns}

computing : Unit {0}
unfolding Assoc.lookup Assoc.insert Text.text_eq Lifecycle.lifecycle_transitions
    Lifecycle.validate_lifecycle_transition Editions.create_edition Editions.transition_lifecycle
    Editions.check_finalizing Editions.complete_edition Moves.step Moves.run
computing = tt

abbrev edition : Competition
edition = record zero_competition { id = codes "e"; lifecycle_status = draft }

abbrev life : List Call
life =
    Call.create edition
    ∷ Call.transition (codes "e") draft published 1
    ∷ Call.transition (codes "e") published registration_open 2
    ∷ Call.transition (codes "e") registration_open registration_closed 3
    ∷ Call.transition (codes "e") registration_closed active 4
    ∷ Call.transition (codes "e") active finalizing 5
    ∷ Call.check (codes "e")
    ∷ []

abbrev final : Competition
final = record edition {
  lifecycle_status = completed;
  published_at = some 1;
  cancelled_at = some 6;
  finalized_at = some 7;
}

-- The write of the promotion comes after the cancellation, and does not see it.
completed_after_cancelled :
    find (codes "e") (
      run
        (Call.complete (codes "e") 7 ∷ [])
        (run (Call.transition (codes "e") finalizing cancelled 6 ∷ []) (run life start)))
    ≡ some final
unfolding computing
completed_after_cancelled = refl

status_never_returns_example :
    (e : Competition) × (find (codes "e") (
        run
          (Call.complete (codes "e") 7 ∷ Call.transition (codes "e") completed finalizing 8 ∷ [])
          (run (Call.transition (codes "e") finalizing cancelled 6 ∷ []) (run life start)))
      ≡ some e)
    × (text_eq e.lifecycle_status finalizing ≡ false)
unfolding computing
status_never_returns_example =
    status_never_returns life (Call.transition (codes "e") finalizing cancelled 6 ∷ [])
      (Call.complete (codes "e") 7 ∷ Call.transition (codes "e") completed finalizing 8 ∷ [])
      (codes "e") (record edition { lifecycle_status = finalizing; published_at = some 1 })
      (record edition {
        lifecycle_status = cancelled;
        published_at = some 1;
        cancelled_at = some 6;
      })
      (refl, (refl, (refl, (refl, (refl, (refl, (refl, tt))))))) (refl, tt) (refl, (refl, tt)) refl
      refl refl
