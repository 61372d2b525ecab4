-- ===== src/Competitions/Ranking/Visible.antt =====
-- What readers see while a generation is being built.
use finance_app.Base.{
  ℕ, ◌≡◌, refl, ap, ◌∙◌, Bool, true, false, Option, List, [], ◌∷◌, ◌==◌, ==_iff, arith,
  Option-cases, Bool-cases, inl, inr,
}
use finance_app.Base.Text.{Text}
use finance_app.Base.Assoc.{Map, values}
use finance_app.Performance.{Decimals}
use finance_app.Competitions.Ranking.{
  CompetitionRankingRow, RankingState, find_at, put_at, no_ranking, try_lock_competition_ranking,
  unlock_competition_ranking, first_generation, next_generation, ensure_building_generation,
  upsert_ranking, advance_generation, fail_generation,
}
use finance_app.Competitions.Ranking.Promotion.{
  can_promote, own_rows, write_ranks, sort_rows, activated, promote_generation, leaderboard_page,
}
use finance_app.Competitions.Ranking.Served.{find_at-put_at, put-IsServed}
use finance_app.Competitions.Ranking.Kept.{
  written, Served, Kept, Safe, same-Safe, first-Safe, next-Safe, then-Safe, upsert-Safe,
  advance-Safe, fail-Safe, supersede-IsServed,
}

-- The calls of workers on the ranking of one edition.
pub data Call (D : Type 0) : Type 0 where
  lock unlock : Call D
  ensure : Text → ℕ → Call D
  upsert : ℕ → CompetitionRankingRow D → Call D
  advance : ℕ → Text → ℕ → ℕ → ℕ → Bool → Call D
  fail : ℕ → Text → ℕ → Call D
  promote : ℕ → ℕ → Call D

abbrev pub is_promotion : {D : Type 0} → Call D → Bool
is_promotion (Call.promote n now) = true
is_promotion c = false

module _ {D : Type 0} (dec : Decimals D) where
  unfoldable pub step : Call D → RankingState D → RankingState D
  step Call.lock st = (try_lock_competition_ranking st).1
  step Call.unlock st = unlock_competition_ranking st
  step (Call.ensure competition now) st = (ensure_building_generation competition now st).1
  step (Call.upsert n row) st = written (upsert_ranking n row st) st
  step (Call.advance n cursor processed successful bad write_failed) st =
      written (advance_generation n cursor processed successful bad write_failed st) st
  step (Call.fail n reason now) st = written (fail_generation n reason now st) st
  step (Call.promote n now) st = written (promote_generation dec n now st) st

  unfoldable pub run : List (Call D) → RankingState D → RankingState D
  run [] st = st
  run (c ∷ cs) st = run cs (step c st)

  step-Safe :
      (c : Call D) (st : RankingState D) → is_promotion c ≡ false → Served st → Safe st (step c st)
  unfolding step try_lock_competition_ranking
  step-Safe Call.lock st o v = elim (Bool-cases st.locked) [
    | inl held ↦ rw (held, step, try_lock_competition_ranking) (same-Safe st v)
    | inr free ↦ rw (free, step, try_lock_competition_ranking) (v, (refl, λ named. refl))
  ]
  step-Safe Call.unlock st o v = (v, (refl, λ named. refl))
  step-Safe (Call.ensure competition now) st o v =
      let st' = first_generation competition now st in
      then-Safe st st' (next_generation competition now st').1 (first-Safe competition now st v)
        (next-Safe competition now st')
  step-Safe (Call.upsert n row) st o v = upsert-Safe n row st v
  step-Safe (Call.advance n cursor processed successful bad write_failed) st o v =
      advance-Safe n cursor processed successful bad write_failed st v
  step-Safe (Call.fail n reason now) st o v = fail-Safe n reason now st v
  step-Safe (Call.promote n now) st o v = cc

  promote-Served :
      (n now : ℕ) (st : RankingState D)
      → Served st
      → Served (written (promote_generation dec n now st) st)
  unfolding promote_generation
  promote-Served n now st v = elim (Option-cases (find_at n st.generations)) [
    | inl absent ↦ rw (absent, written, promote_generation) v
    | inr (g, present) ↦ elim (Bool-cases (can_promote g)) [
      | inr refused ↦ rw (present, refused, written, promote_generation) v
      | inl good ↦
          let h = activated now g in
          let gens = put_at n h st.generations in
          let own = own_rows n st in
          let st' = record st {
            rows = put_at n (write_ranks 1 (sort_rows dec (values own)) own) st.rows;
            generations = gens;
          } in
          rw (present, good, written, promote_generation)
            (supersede-IsServed n h st'
              (ground (arith, find_at-put_at n n h st.generations, ==_iff n n)) refl
              (put-IsServed st.generations st.next_gen st.active_gen n g h present (λ e. refl) v))
    ]
  ]

  step-Served : (c : Call D) (st : RankingState D) → Served st → Served (step c st)
  unfolding step
  step-Served (Call.promote n now) st v = promote-Served n now st v
  step-Served Call.lock st v = (step-Safe Call.lock st refl v).0
  step-Served Call.unlock st v = v
  step-Served (Call.ensure competition now) st v =
      (step-Safe (Call.ensure competition now) st refl v).0
  step-Served (Call.upsert n row) st v = (step-Safe (Call.upsert n row) st refl v).0
  step-Served (Call.advance n cursor processed successful bad write_failed) st v =
      (step-Safe (Call.advance n cursor processed successful bad write_failed) st refl v).0
  step-Served (Call.fail n reason now) st v = (step-Safe (Call.fail n reason now) st refl v).0

  run-Served : (cs : List (Call D)) (st : RankingState D) → Served st → Served (run cs st)
  unfolding run
  run-Served [] st v = v
  run-Served (c ∷ cs) st v = run-Served cs (step c st) (step-Served c st v)

  no_ranking-Served : Served (no_ranking {D = D})
  unfolding find_at
  no_ranking-Served = record { numbered = λ n g e. cc; settled = λ named. absurd (named refl) }

  page-Kept :
      (names : Option (Map Text)) (after_rank limit : ℕ) (st st' : RankingState D)
      → Kept st st'
      → leaderboard_page names after_rank limit st' ≡ leaderboard_page names after_rank limit st
  unfolding leaderboard_page
  page-Kept names after_rank limit st st' (a, k) = elim (Bool-cases (st.active_gen == 0)) [
    | inl zero ↦ ground arith
    | inr named ↦
        let e : find_at st'.active_gen st'.rows ≡ find_at st.active_gen st.rows =
          ap (λ n. find_at n st'.rows) a ∙ k (λ z. ground (arith, ==_iff st.active_gen 0)) in
        ground arith
  ]

  -- After any calls of the workers, a call that is no promotion leaves every page of the leaderboard
  -- as it was: readers see nothing of the generation that is being built.
  pub unpromoted_unseen :
      (cs : List (Call D)) (c : Call D) (names : Option (Map Text)) (after_rank limit : ℕ)
      → is_promotion c ≡ false
      → leaderboard_page names after_rank limit (step c (run cs no_ranking))
        ≡ leaderboard_page names after_rank limit (run cs no_ranking)
  unpromoted_unseen cs c names after_rank limit o =
      let st = run cs no_ranking in
      page-Kept names after_rank limit st (step c st)
        (step-Safe c st o (run-Served cs no_ranking no_ranking-Served)).1
