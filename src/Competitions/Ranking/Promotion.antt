-- ===== src/Competitions/Ranking/Promotion.antt =====
-- ranking.go: the promotion of a generation, and what readers see of the active one.
use finance_app.Base.{
  ℕ, ◌+◌, Bool, true, false, not, ◌&&◌, Option, none, some, List, [], ◌∷◌, if◌then◌else◌, ◌==◌, leb,
  ltb, find_first, keep_if, map, take,
}
use finance_app.Base.Text.{Text, text_eq, text_lt}
use finance_app.Base.Assoc.{Map, lookup, insert, values}
use finance_app.Base.Result.{Result, ok, err}
use finance_app.Performance.{Decimals}
use finance_app.Competitions.Ranking.{
  RankingError, GenerationStatus, RankingGeneration, CompetitionRankingRow, RankingState, find_at,
  put_at, delete_at, is_building,
}

pub record CompetitionLeaderboardEntry (D : Type 0) : Type 0 where
  pub rank : ℕ
  pub display_name : Text
  pub avatar_key : Text
  pub return_percentage : D
  pub competition_index : D

-- The guards of `PromoteGeneration` on a generation that exists.
abbrev pub can_promote : RankingGeneration → Bool
can_promote g =
    is_building g
    && not g.write_failure
    && (g.failed_entries == 0)
    && (g.processed_entries == g.successful_entries)

abbrev pub with_status : GenerationStatus → RankingGeneration → RankingGeneration
with_status s g = record g { status = s }

abbrev pub activated : ℕ → RankingGeneration → RankingGeneration
activated now g = record g {
  status = GenerationStatus.active;
  completed_at = some now;
  activated_at = some now;
}

-- Without a table of names the name is the user's id.
unfoldable pub user_display_name : Option (Map Text) → Text → Text
user_display_name none user = user
user_display_name (some names) user = elim (lookup user names) [ none ↦ user | some name ↦ name ]

module _ {D : Type 0} (dec : Decimals D) where
  -- The higher return first, then the smaller id.
  unfoldable pub ranks_before : CompetitionRankingRow D → CompetitionRankingRow D → Bool
  ranks_before a b =
      if dec.is_less b.return_pct a.return_pct
      then true
      else if dec.is_less a.return_pct b.return_pct
      then false
      else text_lt a.entry_id b.entry_id

  unfoldable pub insert_row :
      CompetitionRankingRow D → List (CompetitionRankingRow D) → List (CompetitionRankingRow D)
  insert_row row [] = row ∷ []
  insert_row row (other ∷ rest) =
      let later = insert_row row rest in
      if ranks_before other row then other ∷ later else row ∷ other ∷ rest

  -- A stable sort.
  unfoldable pub sort_rows : List (CompetitionRankingRow D) → List (CompetitionRankingRow D)
  sort_rows [] = []
  sort_rows (row ∷ rows) = insert_row row (sort_rows rows)

module _ {D : Type 0} where
  -- The ranks from one on, written into the rows of the generation.
  unfoldable pub write_ranks :
      ℕ
      → List (CompetitionRankingRow D)
      → Map (CompetitionRankingRow D)
      → Map (CompetitionRankingRow D)
  write_ranks n [] own = own
  write_ranks n (row ∷ rows) own =
      write_ranks (n + 1) rows (insert row.entry_id (record row { rank = n }) own)

  abbrev pub own_rows : ℕ → RankingState D → Map (CompetitionRankingRow D)
  own_rows n st = elim (find_at n st.rows) [ none ↦ [] | some own ↦ own ]

  abbrev pub supersede : RankingState D → RankingState D
  supersede st = if st.active_gen == 0 then st else record st {
    generations = elim (find_at st.active_gen st.generations) [
      | none ↦ st.generations
      | some prev ↦
          put_at st.active_gen (with_status GenerationStatus.superseded prev) st.generations
    ];
    rows = delete_at st.active_gen st.rows;
  }

module _ {D : Type 0} (dec : Decimals D) where
  unfoldable pub promote_generation : ℕ → ℕ → RankingState D → Result RankingError (RankingState D)
  promote_generation n now st = elim (find_at n st.generations) [
    | none ↦ err RankingError.generation_conflict
    | some g ↦
        if not (can_promote g)
        then err RankingError.generation_conflict
        else let own = own_rows n st in
          let ranked = write_ranks 1 (sort_rows dec (values own)) own in
          let st' = record st {
            rows = put_at n ranked st.rows;
            generations = put_at n (activated now g) st.generations;
          } in
          ok (record (supersede st') { active_gen = n })
  ]

module _ {D : Type 0} where
  -- `none` for `false`; the generation that is active exists and has a time of activation.
  unfoldable pub active_generation : RankingState D → Option (ℕ × ℕ)
  active_generation st =
      if st.active_gen == 0 then none else elim (find_at st.active_gen st.generations) [
        | none ↦ none
        | some g ↦ elim g.activated_at [ none ↦ none | some at ↦ some (g.generation, at) ]
      ]

  unfoldable pub insert_ranked :
      CompetitionRankingRow D → List (CompetitionRankingRow D) → List (CompetitionRankingRow D)
  insert_ranked row [] = row ∷ []
  insert_ranked row (other ∷ rest) =
      let later = insert_ranked row rest in
      if ltb other.rank row.rank then other ∷ later else row ∷ other ∷ rest

  unfoldable pub sort_ranked : List (CompetitionRankingRow D) → List (CompetitionRankingRow D)
  sort_ranked [] = []
  sort_ranked (row ∷ rows) = insert_ranked row (sort_ranked rows)

  abbrev pub leaderboard_entry :
      Option (Map Text) → CompetitionRankingRow D → CompetitionLeaderboardEntry D
  leaderboard_entry names row = record {
    rank = row.rank;
    display_name = user_display_name names row.user_id;
    avatar_key = [];
    return_percentage = row.return_pct;
    competition_index = row.index;
  }

  -- A limit of 0 is never reached.
  unfoldable pub leaderboard_page :
      Option (Map Text) → ℕ → ℕ → RankingState D → List (CompetitionLeaderboardEntry D)
  leaderboard_page names after_rank limit st =
      if st.active_gen == 0
      then []
      else let rows = sort_ranked (values (own_rows st.active_gen st)) in
        let later =
          keep_if (λ (row : CompetitionRankingRow D). not (leb row.rank after_rank)) rows in
        map (leaderboard_entry names) (if limit == 0 then later else take limit later)

  unfoldable pub user_rank_row : Text → RankingState D → Option (CompetitionRankingRow D)
  user_rank_row user st =
      if st.active_gen == 0
      then none
      else find_first (λ (row : CompetitionRankingRow D). text_eq row.user_id user)
          (values (own_rows st.active_gen st))
