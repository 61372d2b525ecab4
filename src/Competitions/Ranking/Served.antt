-- ===== src/Competitions/Ranking/Served.antt =====
-- The generations of a ranking: every one has been numbered, and the active one is not being built.
use finance_app.Base.{
  ℕ, ◌+◌, ◌≤◌, ◌≡◌, ◌≢◌, refl, sym, ap, ◌∙◌, false, none, some, [], ◌∷◌, if◌then◌else◌, ◌==◌,
  ==_iff, arith, Bool-cases, inl, inr,
}
use finance_app.Competitions.Ranking.{
  RankingGeneration, Numbered, find_at, put_at, delete_at, is_building,
}

module _ {V : Type 0} where
  pub find_at-put_at :
      (n m : ℕ) (v : V) (xs : Numbered V)
      → find_at m (put_at n v xs) ≡ (if n == m then some v else find_at m xs)
  unfolding find_at put_at
  find_at-put_at n m v [] = refl
  find_at-put_at n m v ((k, w) ∷ xs) =
      ground (arith, ==_iff n m, ==_iff k n, ==_iff k m, find_at-put_at n m v xs)

  pub find_at-delete_at :
      (n m : ℕ) (xs : Numbered V)
      → find_at m (delete_at n xs) ≡ (if n == m then none else find_at m xs)
  unfolding find_at delete_at
  find_at-delete_at n m [] = ground arith
  find_at-delete_at n m ((k, w) ∷ xs) =
      ground (arith, ==_iff n m, ==_iff k n, ==_iff k m, find_at-delete_at n m xs)

-- Every generation has been numbered, and the active one is there and is not being built.
pub record IsServed (gens : Numbered RankingGeneration) (next active : ℕ) : Type 0 where
  pub numbered : (n : ℕ) (g : RankingGeneration) → find_at n gens ≡ some g → n ≤ next
  pub settled :
      active ≢ 0
      → (g : RankingGeneration) × (find_at active gens ≡ some g) × (is_building g ≡ false)

module _ (gens : Numbered RankingGeneration) (next active : ℕ) where
  pub put-IsServed :
      (n : ℕ) (g h : RankingGeneration)
      → find_at n gens ≡ some g
      → (is_building g ≡ false → is_building h ≡ false)
      → IsServed gens next active
      → IsServed (put_at n h gens) next active
  put-IsServed n g h found keep v = record {
    numbered = λ m k e. elim (Bool-cases (n == m)) [
      | inl same ↦ ground (arith, ==_iff n m, v.numbered n g found)
      | inr other ↦ v.numbered m k (ground (arith, find_at-put_at n m h gens))
    ];
    settled = λ named.
        let (k, there, done) = v.settled named in
        elim (Bool-cases (n == active)) [
          | inl same ↦
              let is : k ≡ g = ground (arith, ==_iff n active) in
              (
                h,
                ground (arith, find_at-put_at n active h gens),
                keep (ap is_building (sym is) ∙ done),
              )
          | inr other ↦ (k, ground (arith, find_at-put_at n active h gens), done)
        ];
  }

  pub add-IsServed :
      (n : ℕ) (g : RankingGeneration)
      → n ≡ next + 1
      → IsServed gens next active
      → IsServed (put_at n g gens) n active
  add-IsServed n g e v = record {
    numbered = λ m k f. elim (Bool-cases (n == m)) [
      | inl same ↦ ground (arith, ==_iff n m)
      | inr other ↦
          let old = v.numbered m k (ground (arith, find_at-put_at n m g gens)) in omega arith
    ];
    settled = λ named.
        let (k, there, done) = v.settled named in
        let old = v.numbered active k there in
        (k, ground (arith, find_at-put_at n active g gens, ==_iff n active), done);
  }

  pub activate-IsServed :
      (n : ℕ) (g : RankingGeneration)
      → find_at n gens ≡ some g
      → is_building g ≡ false
      → IsServed gens next active
      → IsServed gens next n
  activate-IsServed n g found done v = record {
    numbered = v.numbered;
    settled = λ named. (g, found, done);
  }
