-- ===== src/Competitions/Ranking/Tests.antt =====
-- An edition with two entries: the first generation is promoted, and the second is being built.
use finance_app.Base.{ℕ, ◌+◌, ◌*◌, ◌/◌, ◌≡◌, refl, false, none, List, [], ◌∷◌, ltb, ◌==◌}
use finance_app.Base.Text.{codes, text_eq, text_lt}
use finance_app.Base.Assoc
use finance_app.Performance.{Decimals}
use finance_app.Competitions.Ranking
use finance_app.Competitions.Ranking.{CompetitionRankingRow, no_ranking}
use finance_app.Competitions.Ranking.Promotion
use finance_app.Competitions.Ranking.Promotion.{CompetitionLeaderboardEntry, leaderboard_page}
use finance_app.Competitions.Ranking.Visible.{Call, step, run, unpromoted_unseen}

abbrev dec : Decimals ℕ
dec = record {
  of_text = λ t. 0;
  mul = λ a b. a * b;
  div_round = λ a b n. a / b;
  round_bank = λ a n. a;
  is_zero = λ a. a == 0;
  is_positive = λ a. ltb 0 a;
  is_less = λ a b. ltb a b;
}

abbrev row : List ℕ → List ℕ → ℕ → CompetitionRankingRow ℕ
row id user pct = record {
  entry_id = id;
  user_id = user;
  rank = 0;
  index = 100 + pct;
  return_pct = pct;
  valued_at = 2;
}

abbrev calls : List (Call ℕ)
calls =
    Call.lock
    ∷ Call.ensure (codes "c") 1
    ∷ Call.upsert 1 (row (codes "e-1") (codes "u-1") 3)
    ∷ Call.upsert 1 (row (codes "e-2") (codes "u-2") 7)
    ∷ Call.advance 1 (codes "e-2") 2 2 0 false
    ∷ Call.promote 1 3
    ∷ Call.ensure (codes "c") 4
    ∷ []

abbrev entry : ℕ → List ℕ → ℕ → CompetitionLeaderboardEntry ℕ
entry rank user pct = record {
  rank = rank;
  display_name = user;
  avatar_key = [];
  return_percentage = pct;
  competition_index = 100 + pct;
}

-- The rows of the second generation do not show.
unpromoted_unseen_example :
    leaderboard_page none 0 10
      (step dec (Call.upsert 2 (row (codes "e-1") (codes "u-1") 9)) (run dec calls no_ranking))
    ≡ (entry 1 (codes "u-2") 7 ∷ entry 2 (codes "u-1") 3 ∷ [])
unfolding step run text_eq text_lt Assoc.lookup Assoc.insert Ranking.find_at Ranking.put_at
    Ranking.delete_at Ranking.find_building Ranking.try_lock_competition_ranking
    Ranking.first_generation Ranking.next_generation Ranking.upsert_ranking
    Ranking.advance_generation Promotion.ranks_before Promotion.insert_row Promotion.sort_rows
    Promotion.write_ranks Promotion.promote_generation Promotion.insert_ranked Promotion.sort_ranked
    Promotion.user_display_name Promotion.leaderboard_page
unpromoted_unseen_example =
    unpromoted_unseen dec calls (Call.upsert 2 (row (codes "e-1") (codes "u-1") 9)) none 0 10 refl
