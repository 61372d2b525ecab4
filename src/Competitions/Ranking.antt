-- ===== src/Competitions/Ranking.antt =====
-- backend/internal/competitions/ranking.go: the generations of the ranking of one edition, kept in
-- memory. Workers write the rows of the generation that is being built, and readers read the rows
-- of the active one. The mutex of the state makes each method one step; the time is an argument.
-- Generations are numbered on ℕ; the counts of entries keep their 64 bits.
pub mod Promotion
mod Served
mod Kept
pub mod Visible
mod Tests
use finance_app.Base.{
  ℕ, ◌+◌, ◌^◌, ◌%◌, Bool, true, false, not, ◌&&◌, ◌||◌, Option, none, some, List, [], ◌∷◌,
  if◌then◌else◌, ◌==◌, leb, find_first, keep_if, map, take,
}
use finance_app.Base.Text.{Text, text_eq, text_lt}
use finance_app.Base.Assoc.{Map, lookup, insert, values}
use finance_app.Base.Result.{Result, ok, err}

pub data RankingError : Type 0 where
  generation_conflict : RankingError

-- The constants of `Status`; the code writes no other string.
pub data GenerationStatus : Type 0 where
  building active superseded failed : GenerationStatus

pub record RankingGeneration : Type 0 where
  pub competition_id : Text
  pub generation : ℕ
  pub status : GenerationStatus
  pub expected_entries : ℕ
  pub processed_entries : ℕ
  pub successful_entries : ℕ
  pub failed_entries : ℕ
  pub cursor_entry_id : Text
  pub write_failure : Bool
  pub started_at : ℕ
  pub completed_at : Option ℕ
  pub activated_at : Option ℕ
  pub failure_reason : Text

pub record CompetitionRankingRow (D : Type 0) : Type 0 where
  pub entry_id : Text
  pub user_id : Text
  pub rank : ℕ
  pub index : D
  pub return_pct : D
  pub valued_at : ℕ

-- Go maps with generations as keys.
abbrev pub Numbered : Type 0 → Type 0
Numbered V = List (ℕ × V)

module _ {V : Type 0} where
  unfoldable pub find_at : ℕ → Numbered V → Option V
  find_at n [] = none
  find_at n ((m, v) ∷ rest) = if m == n then some v else find_at n rest

  unfoldable pub put_at : ℕ → V → Numbered V → Numbered V
  put_at n v [] = (n, v) ∷ []
  put_at n v ((m, w) ∷ rest) = if m == n then (n, v) ∷ rest else (m, w) ∷ put_at n v rest

  unfoldable pub delete_at : ℕ → Numbered V → Numbered V
  delete_at n [] = []
  delete_at n ((m, w) ∷ rest) =
      let kept = delete_at n rest in if m == n then kept else (m, w) ∷ kept

pub record RankingState (D : Type 0) : Type 0 where
  pub generations : Numbered RankingGeneration
  pub rows : Numbered (Map (CompetitionRankingRow D))
  pub next_gen : ℕ
  -- 0 while none was promoted
  pub active_gen : ℕ
  pub locked : Bool

abbrev pub is_building : RankingGeneration → Bool
is_building g = elim g.status [
  | building ↦ true
  | active ↦ false
  | superseded ↦ false
  | failed ↦ false
]

abbrev pub new_generation : Text → ℕ → ℕ → RankingGeneration
new_generation competition n now = record {
  competition_id = competition;
  generation = n;
  status = GenerationStatus.building;
  expected_entries = 0;
  processed_entries = 0;
  successful_entries = 0;
  failed_entries = 0;
  cursor_entry_id = [];
  write_failure = false;
  started_at = now;
  completed_at = none;
  activated_at = none;
  failure_reason = [];
}

unfoldable pub find_building : Numbered RankingGeneration → Option RankingGeneration
find_building [] = none
find_building ((_, g) ∷ rest) = if is_building g then some g else find_building rest

-- `int` of 64 bits.
abbrev pub plus : ℕ → ℕ → ℕ
plus a b = (a + b) % 2 ^ 64

abbrev pub advanced : Text → ℕ → ℕ → ℕ → Bool → RankingGeneration → RankingGeneration
advanced cursor processed successful bad write_failed g = record g {
  cursor_entry_id = cursor;
  processed_entries = plus g.processed_entries processed;
  successful_entries = plus g.successful_entries successful;
  failed_entries = plus g.failed_entries bad;
  write_failure = write_failed || g.write_failure;
}

abbrev pub failed_with : Text → ℕ → RankingGeneration → RankingGeneration
failed_with reason now g = record g {
  status = GenerationStatus.failed;
  completed_at = some now;
  failure_reason = reason;
}

module _ {D : Type 0} where
  abbrev pub no_ranking : RankingState D
  no_ranking = record { generations = []; rows = []; next_gen = 0; active_gen = 0; locked = false }

  unfoldable pub try_lock_competition_ranking : RankingState D → Bool × RankingState D
  try_lock_competition_ranking st =
      if st.locked then (false, st) else (true, record st { locked = true })

  abbrev pub unlock_competition_ranking : RankingState D → RankingState D
  unlock_competition_ranking st = record st { locked = false }

  abbrev pub add_generation : Text → ℕ → ℕ → RankingState D → RankingState D
  add_generation competition n now st = record st {
    generations = put_at n (new_generation competition n now) st.generations;
    rows = put_at n [] st.rows;
    next_gen = n;
  }

  unfoldable pub first_generation : Text → ℕ → RankingState D → RankingState D
  first_generation competition now st =
      if st.next_gen == 0 then add_generation competition 1 now st else st

  unfoldable pub next_generation : Text → ℕ → RankingState D → RankingGeneration × RankingState D
  next_generation competition now st = elim (find_building st.generations) [
    | some g ↦ (g, st)
    | none ↦ (
      new_generation competition (st.next_gen + 1) now,
      add_generation competition (st.next_gen + 1) now st,
    )
  ]

  abbrev pub ensure_building_generation :
      Text → ℕ → RankingState D → RankingGeneration × RankingState D
  ensure_building_generation competition now st =
      next_generation competition now (first_generation competition now st)

  unfoldable pub upsert_ranking :
      ℕ → CompetitionRankingRow D → RankingState D → Result RankingError (RankingState D)
  upsert_ranking n row st = elim (find_at n st.generations) [
    | none ↦ err RankingError.generation_conflict
    | some g ↦
        if not (is_building g)
        then err RankingError.generation_conflict
        else elim (find_at n st.rows) [
          -- a write to a nil map panics; `add_generation` has made one
          | none ↦ err RankingError.generation_conflict
          | some own ↦ ok (record st { rows = put_at n (insert row.entry_id row own) st.rows })
        ]
  ]

  unfoldable pub advance_generation :
      ℕ → Text → ℕ → ℕ → ℕ → Bool → RankingState D → Result RankingError (RankingState D)
  advance_generation n cursor processed successful bad write_failed st =
      elim (find_at n st.generations) [
        | none ↦ err RankingError.generation_conflict
        | some g ↦
            let g' = advanced cursor processed successful bad write_failed g in
            ok (record st { generations = put_at n g' st.generations })
      ]

  unfoldable pub fail_generation :
      ℕ → Text → ℕ → RankingState D → Result RankingError (RankingState D)
  fail_generation n reason now st = elim (find_at n st.generations) [
    | none ↦ err RankingError.generation_conflict
    | some g ↦
        if not (is_building g)
        then err RankingError.generation_conflict
        else ok (record st {
          generations = put_at n (failed_with reason now g) st.generations;
          rows = delete_at n st.rows;
        })
  ]
