-- ===== src/Competitions/Ranking/Kept.antt =====
-- What each call keeps: no call but a promotion changes the rows of the active generation.
use finance_app.Base.{
  ℕ, ◌+◌, ◌≡◌, ◌≢◌, refl, sym, ap, subst, ◌∙◌, Bool, false, some, [], ◌==◌, ==_iff, arith,
  Option-cases, Bool-cases, inl, inr,
}
use finance_app.Base.Text.{Text}
use finance_app.Base.Assoc.{insert}
use finance_app.Base.Result.{Result, ok, err}
use finance_app.Competitions.Ranking.{
  RankingError, GenerationStatus, RankingGeneration, CompetitionRankingRow, RankingState, find_at,
  put_at, delete_at, is_building, find_building, new_generation, advanced, add_generation,
  failed_with, first_generation, next_generation, upsert_ranking, advance_generation,
  fail_generation,
}
use finance_app.Competitions.Ranking.Promotion.{supersede, with_status}
use finance_app.Competitions.Ranking.Served.{
  IsServed, find_at-put_at, find_at-delete_at, put-IsServed, add-IsServed, activate-IsServed,
}

module _ {D : Type 0} where
  -- The state after a call.
  abbrev pub written : Result RankingError (RankingState D) → RankingState D → RankingState D
  written r st = elim r [ err _ ↦ st | ok st' ↦ st' ]

  abbrev pub Served : RankingState D → Type 0
  Served st = IsServed st.generations st.next_gen st.active_gen

  -- The same generation is active, with the same rows.
  abbrev pub Kept : RankingState D → RankingState D → Type 0
  Kept st st' =
      (st'.active_gen ≡ st.active_gen)
      × (st.active_gen ≢ 0 → find_at st.active_gen st'.rows ≡ find_at st.active_gen st.rows)

  abbrev pub Safe : RankingState D → RankingState D → Type 0
  Safe st st' = Served st' × Kept st st'

  pub same-Safe : (st : RankingState D) → Served st → Safe st st
  same-Safe st v = (v, (refl, λ named. refl))

  add-Safe :
      (competition : Text) (n now : ℕ) (st : RankingState D)
      → n ≡ st.next_gen + 1
      → Served st
      → Safe st (add_generation competition n now st)
  add-Safe competition n now st e v = (
    add-IsServed st.generations st.next_gen st.active_gen n (new_generation competition n now) e v,
    (
      refl,
      λ named.
          let (k, there, done) = v.settled named in
          let old = v.numbered st.active_gen k there in
          ground (arith, find_at-put_at n st.active_gen [] st.rows, ==_iff n st.active_gen),
    ),
  )

  pub first-Safe :
      (competition : Text) (now : ℕ) (st : RankingState D)
      → Served st
      → Safe st (first_generation competition now st)
  unfolding first_generation
  first-Safe competition now st v = elim (Bool-cases (st.next_gen == 0)) [
    | inl none_yet ↦
        let e : add_generation competition 1 now st ≡ first_generation competition now st =
          ground arith in
        subst (Safe st) e (add-Safe competition 1 now st (ground (arith, ==_iff st.next_gen 0)) v)
    | inr some_yet ↦
        let e : st ≡ first_generation competition now st = ground arith in
        subst (Safe st) e (same-Safe st v)
  ]

  pub next-Safe :
      (competition : Text) (now : ℕ) (st : RankingState D)
      → Served st
      → Safe st (next_generation competition now st).1
  unfolding next_generation
  next-Safe competition now st v = elim (Option-cases (find_building st.generations)) [
    | inl absent ↦
        rw (absent, next_generation) (add-Safe competition (st.next_gen + 1) now st refl v)
    | inr (g, present) ↦ rw (present, next_generation) (same-Safe st v)
  ]

  pub then-Safe :
      (st st' st'' : RankingState D) → Safe st st' → (Served st' → Safe st' st'') → Safe st st''
  then-Safe st st' st'' (v, (a, k)) f =
      let (w, (b, l)) = f v in
      (
        w,
        (
          b ∙ a,
          λ named.
              ap (λ n. find_at n st''.rows) (sym a)
              ∙ l (λ z. named (sym a ∙ z))
              ∙ ap (λ n. find_at n st'.rows) a
              ∙ k named,
        ),
      )

  pub upsert-Safe :
      (n : ℕ) (row : CompetitionRankingRow D) (st : RankingState D)
      → Served st
      → Safe st (written (upsert_ranking n row st) st)
  unfolding upsert_ranking
  upsert-Safe n row st v = elim (Option-cases (find_at n st.generations)) [
    | inl absent ↦ rw (absent, written, upsert_ranking) (same-Safe st v)
    | inr (g, present) ↦ elim (Bool-cases (is_building g)) [
      | inr other ↦
          let e : st ≡ written (upsert_ranking n row st) st = ground arith in
          subst (Safe st) e (same-Safe st v)
      | inl built ↦ elim (Option-cases (find_at n st.rows)) [
        | inl bare ↦
            let e : st ≡ written (upsert_ranking n row st) st = ground arith in
            subst (Safe st) e (same-Safe st v)
        | inr (own, there) ↦
            let own' = insert row.entry_id row own in
            let st' = record st { rows = put_at n own' st.rows } in
            let e : st' ≡ written (upsert_ranking n row st) st = ground arith in
            subst (Safe st) e (
              v,
              (
                refl,
                λ named.
                    let (k, served, done) = v.settled named in
                    ground
                      (arith, find_at-put_at n st.active_gen own' st.rows, ==_iff n st.active_gen),
              ),
            )
      ]
    ]
  ]

  pub advance-Safe :
      (n : ℕ) (cursor : Text) (processed successful bad : ℕ) (write_failed : Bool)
      (st : RankingState D)
      → Served st
      → Safe st (written (advance_generation n cursor processed successful bad write_failed st) st)
  unfolding advance_generation
  advance-Safe n cursor processed successful bad write_failed st v =
      elim (Option-cases (find_at n st.generations)) [
        | inl absent ↦ rw (absent, written, advance_generation) (same-Safe st v)
        | inr (g, present) ↦
            let h = advanced cursor processed successful bad write_failed g in
            rw (present, written, advance_generation)
              (
                put-IsServed st.generations st.next_gen st.active_gen n g h present (λ e. e) v,
                (refl, λ named. refl),
              )
      ]

  pub fail-Safe :
      (n : ℕ) (reason : Text) (now : ℕ) (st : RankingState D)
      → Served st
      → Safe st (written (fail_generation n reason now st) st)
  unfolding fail_generation
  fail-Safe n reason now st v = elim (Option-cases (find_at n st.generations)) [
    | inl absent ↦ rw (absent, written, fail_generation) (same-Safe st v)
    | inr (g, present) ↦ elim (Bool-cases (is_building g)) [
      | inr other ↦
          let e : st ≡ written (fail_generation n reason now st) st = ground arith in
          subst (Safe st) e (same-Safe st v)
      | inl built ↦
          let h = failed_with reason now g in
          let st' = record st {
            generations = put_at n h st.generations;
            rows = delete_at n st.rows;
          } in
          let e : st' ≡ written (fail_generation n reason now st) st = ground arith in
          subst (Safe st) e (
            put-IsServed st.generations st.next_gen st.active_gen n g h present (λ e. refl) v,
            (
              refl,
              λ named.
                  let (k, served, done) = v.settled named in
                  ground (arith, find_at-delete_at n st.active_gen st.rows, ==_iff n st.active_gen),
            ),
          )
    ]
  ]

module _ {D : Type 0} where
  pub supersede-IsServed :
      (n : ℕ) (h : RankingGeneration) (st : RankingState D)
      → find_at n st.generations ≡ some h
      → is_building h ≡ false
      → Served st
      → IsServed (supersede st).generations (supersede st).next_gen n
  supersede-IsServed n h st there done v = elim (Bool-cases (st.active_gen == 0)) [
    | inl none_yet ↦
        rw none_yet (activate-IsServed st.generations st.next_gen st.active_gen n h there done v)
    | inr some_yet ↦
        let (prev, found, _) = v.settled (λ e. ground (arith, ==_iff st.active_gen 0)) in
        let up = with_status GenerationStatus.superseded prev in
        let gens = put_at st.active_gen up st.generations in
        let w =
          put-IsServed st.generations st.next_gen st.active_gen st.active_gen prev up found
            (λ e. refl) v in
        let e : gens ≡ (supersede st).generations = ground arith in
        let e' : st.next_gen ≡ (supersede st).next_gen = ground arith in
        subst (λ m. IsServed (supersede st).generations m n) e'
          (subst (λ m. IsServed m st.next_gen n) e
            (elim (Bool-cases (st.active_gen == n)) [
              | inl same ↦
                  activate-IsServed gens st.next_gen st.active_gen n up
                    (ground (arith, find_at-put_at st.active_gen n up st.generations)) refl w
              | inr other ↦
                  activate-IsServed gens st.next_gen st.active_gen n h
                    (ground (arith, find_at-put_at st.active_gen n up st.generations)) done w
            ]))
  ]
