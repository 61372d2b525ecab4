-- ===== src/Competitions/Editions.antt =====
-- The in-memory store of editions: engine_repository.go's `CreateEdition` and `TransitionLifecycle`,
-- repository.go's `CreateCompetition`, and the check and the write of an edition in finalize.go's
-- `PromoteFinalizationGeneration`, which holds the mutex for each of the two but not between them.
use finance_app.Base.{
  ℕ, not, Option, none, some, List, [], ◌∷◌, ◌++◌, if◌then◌else◌, Bool, true, false,
}
use finance_app.Base.Text.{Text, text_eq}
use finance_app.Base.Assoc.{Map, lookup, insert}
use finance_app.Base.Result.{Result, ok, err}
use finance_app.Competitions.Lifecycle.{
  LifecycleError, published, finalizing, completed, cancelled, validate_lifecycle_transition,
}

pub data EditionError : Type 0 where
  competition_not_found lifecycle_conflict edition_exists : EditionError
  lifecycle : LifecycleError → EditionError

pub record Competition : Type 0 where
  pub id : Text
  pub name : Text
  pub competition_type : Text
  pub starts_at : ℕ
  pub ends_at : ℕ
  pub status : Text
  pub created_at : ℕ
  pub definition_id : Text
  pub definition_version : ℕ
  pub join_opens_at : Option ℕ
  pub join_closes_at : Option ℕ
  pub lifecycle_status : Text
  pub rules_snapshot_json : Text
  pub scoring_scope : Text
  pub published_at : Option ℕ
  pub finalized_at : Option ℕ
  pub cancelled_at : Option ℕ

-- The fields `competitions` and `compOrder` of `InMemoryCompetitionRepository`.
pub record Editions : Type 0 where
  pub competitions : Map Competition
  pub comp_order : List Text

abbrev pub no_editions : Editions
no_editions = record { competitions = []; comp_order = [] }

unfoldable pub create_edition : Competition → Editions → Result EditionError (Unit {0}) × Editions
create_edition e r = elim (lookup e.id r.competitions) [
  | some _ ↦ (err EditionError.edition_exists, r)
  | none ↦ (
    ok tt,
    record r {
      comp_order = r.comp_order ++ (e.id ∷ []);
      competitions = insert e.id e r.competitions;
    },
  )
]

-- The legacy sprints.
unfoldable pub create_competition : Competition → Editions → Editions
create_competition c r = record r {
  comp_order = elim (lookup c.id r.competitions) [
    | some _ ↦ r.comp_order
    | none ↦ r.comp_order ++ (c.id ∷ [])
  ];
  competitions = insert c.id c r.competitions;
}

-- The `switch` of `TransitionLifecycle`.
abbrev pub stamped : Text → ℕ → Competition → Competition
stamped to now c =
    if text_eq to published
    then record c { published_at = some now }
    else if text_eq to completed
    then record c { finalized_at = some now }
    else if text_eq to cancelled
    then record c { cancelled_at = some now }
    else c

unfoldable pub transition_lifecycle :
    Text → Text → Text → ℕ → Editions → Result EditionError (Unit {0}) × Editions
transition_lifecycle id from to now r = elim (validate_lifecycle_transition from to) [
  | err e ↦ (err (EditionError.lifecycle e), r)
  | ok _ ↦ elim (lookup id r.competitions) [
    | none ↦ (err EditionError.competition_not_found, r)
    | some c ↦
        if not (text_eq c.lifecycle_status from)
        then (err EditionError.lifecycle_conflict, r)
        else (
          ok tt,
          record r {
            competitions =
                insert id (record (stamped to now c) { lifecycle_status = to }) r.competitions;
          },
        )
  ]
]

-- Whether a promotion goes on: `false` for one that has been made before.
unfoldable pub check_finalizing : Text → Editions → Result EditionError Bool
check_finalizing id r = elim (lookup id r.competitions) [
  | none ↦ err EditionError.competition_not_found
  | some c ↦
      if text_eq c.lifecycle_status completed
      then ok false
      else if not (text_eq c.lifecycle_status finalizing)
      then err EditionError.lifecycle_conflict
      else ok true
]

-- Go's zero value, which a read of a missing key gives.
abbrev pub zero_competition : Competition
zero_competition = record {
  id = [];
  name = [];
  competition_type = [];
  starts_at = 0;
  ends_at = 0;
  status = [];
  created_at = 0;
  definition_id = [];
  definition_version = 0;
  join_opens_at = none;
  join_closes_at = none;
  lifecycle_status = [];
  rules_snapshot_json = [];
  scoring_scope = [];
  published_at = none;
  finalized_at = none;
  cancelled_at = none;
}

abbrev pub read_competition : Text → Editions → Competition
read_competition id r = elim (lookup id r.competitions) [ none ↦ zero_competition | some c ↦ c ]

abbrev pub completed_at : ℕ → Competition → Competition
completed_at now c = record c { lifecycle_status = completed; finalized_at = some now }

-- The write reads the edition again, and does not test its status.
unfoldable pub complete_edition : Text → ℕ → Editions → Editions
complete_edition id now r = record r {
  competitions = insert id (completed_at now (read_competition id r)) r.competitions;
}
