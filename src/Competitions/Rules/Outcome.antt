-- ===== src/Competitions/Rules/Outcome.antt =====
-- What an evaluation decides.
use finance_app.Base.{
  ℕ, ◌≡◌, refl, sym, ◌∙◌, ap, Bool, true, false, not, ◌&&◌, ◌||◌, none, some, List, [], ◌∷◌, ◌++◌,
  map, if◌then◌else◌, any_of, all_of, count_if, arith,
}
use finance_app.Base.Text.{codes, text_eq, text_eq_iff, is_empty}
use finance_app.Base.Assoc.{Map, lookup}
use finance_app.Competitions.Rules.Defs.{
  Filter, Rule, Eligibility, PositionFacts, PortfolioFacts, Evidence, Amounts,
}
use finance_app.Competitions.Rules.Evaluate.{
  counted, matches, is_zero_filter, ratio_from_int, in_universe, metric_value, filtered_weight,
  compare_rule, evaluate_rule, evaluate_all, evaluate_any, evaluate,
}

append_assoc : (xs ys zs : List Evidence) → (xs ++ ys) ++ zs ≡ xs ++ (ys ++ zs)
append_assoc [] ys zs = refl
append_assoc (x ∷ xs) ys zs = ap (λ r. x ∷ r) (append_assoc xs ys zs)

map-append : (f : Rule → Evidence) (xs ys : List Rule) → map f (xs ++ ys) ≡ map f xs ++ map f ys
map-append f [] ys = refl
map-append f (x ∷ xs) ys = ap (λ r. f x ∷ r) (map-append f xs ys)

append_nil : (xs : List Evidence) → xs ++ [] ≡ xs
append_nil [] = refl
append_nil (x ∷ xs) = ap (λ r. x ∷ r) (append_nil xs)

abbrev pub no_rules : List Rule → Bool
no_rules [] = true
no_rules (_ ∷ _) = false

module _ {D : Type 0} (am : Amounts D) where
  abbrev pub passes : PortfolioFacts D → Rule → Bool
  passes facts r = (evaluate_rule am r facts).passed

  evaluate_all-eligible :
      (rs : List Rule) (facts : PortfolioFacts D) (eligible : Bool) (out : List Evidence)
      → (evaluate_all am rs facts (eligible, out)).0 ≡ (eligible && all_of (passes facts) rs)
  unfolding evaluate_all
  evaluate_all-eligible [] facts eligible out = ground arith
  evaluate_all-eligible (r ∷ rs) facts eligible out =
      let now = (if passes facts r then eligible else false) in
      let evidence = out ++ (evaluate_rule am r facts ∷ []) in
      ground (arith, evaluate_all-eligible rs facts now evidence)

  evaluate_any-passed :
      (rs : List Rule) (facts : PortfolioFacts D) (passed : Bool) (out : List Evidence)
      → (evaluate_any am rs facts (passed, out)).0 ≡ (passed || any_of (passes facts) rs)
  unfolding evaluate_any
  evaluate_any-passed [] facts passed out = ground arith
  evaluate_any-passed (r ∷ rs) facts passed out =
      let now = (if passes facts r then true else passed) in
      let evidence = out ++ (evaluate_rule am r facts ∷ []) in
      ground (arith, evaluate_any-passed rs facts now evidence)

  evaluate_all-rules :
      (rs : List Rule) (facts : PortfolioFacts D) (eligible : Bool) (out : List Evidence)
      → (evaluate_all am rs facts (eligible, out)).1 ≡ out ++ map (λ r. evaluate_rule am r facts) rs
  unfolding evaluate_all
  evaluate_all-rules [] facts eligible out = sym (append_nil out)
  evaluate_all-rules (r ∷ rs) facts eligible out =
      evaluate_all-rules rs facts (if passes facts r then eligible else false)
        (out ++ (evaluate_rule am r facts ∷ []))
      ∙ append_assoc out (evaluate_rule am r facts ∷ []) (map (λ r. evaluate_rule am r facts) rs)

  evaluate_any-rules :
      (rs : List Rule) (facts : PortfolioFacts D) (passed : Bool) (out : List Evidence)
      → (evaluate_any am rs facts (passed, out)).1 ≡ out ++ map (λ r. evaluate_rule am r facts) rs
  unfolding evaluate_any
  evaluate_any-rules [] facts passed out = sym (append_nil out)
  evaluate_any-rules (r ∷ rs) facts passed out =
      evaluate_any-rules rs facts (if passes facts r then true else passed)
        (out ++ (evaluate_rule am r facts ∷ []))
      ∙ append_assoc out (evaluate_rule am r facts ∷ []) (map (λ r. evaluate_rule am r facts) rs)

  -- A portfolio is eligible exactly if it passes every rule of `All` and, where `Any` has rules, at
  -- least one of them.
  pub evaluate_eligible_iff :
      (e : Eligibility) (facts : PortfolioFacts D) (now : ℕ)
      → (evaluate am e facts now).eligible
        ≡ (all_of (passes facts) e.all && (no_rules e.any || any_of (passes facts) e.any))
  unfolding evaluate
  evaluate_eligible_iff e facts now =
      let s = evaluate_all am e.all facts (true, []) in
      ground (
        arith,
        evaluate_all-eligible e.all facts true [],
        evaluate_any-passed e.any facts false s.1,
      )

  -- The evidence of an evaluation is that of every rule, those of `All` and then those of `Any`, in
  -- their order, whether they pass or not.
  pub evaluate_evidence :
      (e : Eligibility) (facts : PortfolioFacts D) (now : ℕ)
      → (evaluate am e facts now).rules ≡ map (λ r. evaluate_rule am r facts) (e.all ++ e.any)
  unfolding evaluate
  evaluate_evidence e facts now =
      let s = evaluate_all am e.all facts (true, []) in
      evaluate_any-rules e.any facts false s.1
      ∙ ap (λ out. out ++ map (λ r. evaluate_rule am r facts) e.any)
          (evaluate_all-rules e.all facts true [])
      ∙ sym (map-append (λ r. evaluate_rule am r facts) e.all e.any)

  no_match :
      (f : Filter) (universes : Map (Map Bool)) (ps : List (PositionFacts D))
      → is_empty f.universe ≡ false
      → lookup f.universe universes ≡ none
      → count_if (λ p. matches (some f) p universes) ps ≡ 0
  unfolding matches is_zero_filter in_universe
  no_match f universes [] named unknown = refl
  no_match f universes (p ∷ ps) named unknown =
      ground (arith, no_match f universes ps named unknown)

  -- A rule on the weight of a universe that is not resolved does not pass.
  pub unknown_universe_weight :
      (r : Rule) (f : Filter) (facts : PortfolioFacts D)
      → r.metric ≡ codes "portfolio_weight"
      → r.filter ≡ some f
      → is_empty f.universe ≡ false
      → lookup f.universe facts.universe_membership ≡ none
      → (evaluate_rule am r facts).passed ≡ false
  unfolding evaluate_rule metric_value filtered_weight
  unknown_universe_weight r f facts metric filter named unknown =
      ground (arith, text_eq_iff r.metric (codes "portfolio_weight"))

  metric_of_count :
      (r : Rule) (facts : PortfolioFacts D)
      → r.metric ≡ codes "position_count"
      → metric_value am r facts
        ≡ counted am (count_if (λ p. matches r.filter p facts.universe_membership) facts.positions)
  unfolding metric_value text_eq
  metric_of_count r facts metric = rw metric refl

  compare_lte :
      (a : D) (r : Rule)
      → r.operator ≡ codes "lte"
      → compare_rule am a r ≡ not (am.is_less (am.of_text r.value) a)
  unfolding compare_rule text_eq
  compare_lte a r operator = rw operator refl

  -- A rule that bounds the number of positions of a universe from above passes where the universe is
  -- not resolved, for a bound that is not less than zero.
  unknown_universe_count :
      (r : Rule) (f : Filter) (facts : PortfolioFacts D)
      → r.metric ≡ codes "position_count"
      → r.operator ≡ codes "lte"
      → r.filter ≡ some f
      → is_empty f.universe ≡ false
      → lookup f.universe facts.universe_membership ≡ none
      → am.is_less (am.of_text r.value) (ratio_from_int am 0) ≡ false
      → (evaluate_rule am r facts).passed ≡ true
  unfolding evaluate_rule compare_rule
  unknown_universe_count r f facts metric operator filter named unknown bound =
      rw
        (
          metric_of_count r facts metric,
          filter,
          no_match f facts.universe_membership facts.positions named unknown,
          compare_lte (ratio_from_int am 0) r operator,
          bound,
        )
        refl
