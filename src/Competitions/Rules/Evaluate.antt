-- ===== src/Competitions/Rules/Evaluate.antt =====
-- competitions/rules/evaluate.go.
use finance_app.Base.{
  ℕ, Bool, true, false, not, ◌&&◌, ◌||◌, Option, none, some, List, [], ◌∷◌, ◌++◌, if◌then◌else◌,
  any_of, count_if, length,
}
use finance_app.Base.Text.{Text, codes, text_eq, is_empty, itoa}
use finance_app.Base.Assoc.{Map, lookup}
use finance_app.Competitions.Rules.Defs.{
  Filter, Rule, Eligibility, PositionFacts, PortfolioFacts, Evidence, Outcome, Amounts,
}

abbrev pub is_none : List Text → Bool
is_none [] = true
is_none (_ ∷ _) = false

unfoldable pub is_zero_filter : Filter → Bool
is_zero_filter f =
    is_none f.asset_types
    && is_none f.sectors
    && is_none f.venue_mics
    && is_none f.issuer_countries
    && is_none f.listing_countries
    && is_none f.currencies
    && is_none f.instrument_ids
    && is_empty f.universe

unfoldable pub value_in : Text → List Text → Bool
value_in v allowed = is_none allowed || any_of (λ a. text_eq a v) allowed

-- `members[p.InstrumentID]`
abbrev pub flag : Option Bool → Bool
flag none = false
flag (some b) = b

unfoldable pub in_universe : Text → Text → Map (Map Bool) → Bool
in_universe universe instrument universes = is_empty universe || elim (lookup universe universes) [
  | none ↦ false
  | some members ↦ flag (lookup instrument members)
]

module _ {D : Type 0} where
  unfoldable pub matches : Option Filter → PositionFacts D → Map (Map Bool) → Bool
  matches none p universes = true
  matches (some f) p universes =
      is_zero_filter f
      || (value_in p.asset_type f.asset_types
          && value_in p.sector f.sectors
          && value_in p.venue_mic f.venue_mics
          && value_in p.issuer_country f.issuer_countries
          && value_in p.listing_country f.listing_countries
          && value_in p.currency f.currencies
          && value_in p.instrument_id f.instrument_ids
          && in_universe f.universe p.instrument_id universes)

  -- The keys of `classes` after the loop, each once.
  abbrev pub asset_classes : List (PositionFacts D) → List Text
  asset_classes [] = []
  asset_classes (p ∷ ps) =
      let rest = asset_classes ps in
      if is_empty p.asset_type || any_of (text_eq p.asset_type) rest
      then rest
      else p.asset_type ∷ rest

-- What `metricValue` answers: the value, or the reason why there is none, and whether it is shown as
-- a percentage.
pub record Metric (D : Type 0) : Type 0 where
  pub actual : D
  pub as_percent : Bool
  pub reason : Text

module _ {D : Type 0} (am : Amounts D) where
  -- `Amount.DivExact`, with `weightDivPlaces`
  unfoldable pub div_exact : D → D → Option D
  div_exact a b = if am.is_zero b then none else some (am.div_round a b 18)

  unfoldable pub ratio_from_int : ℕ → D
  ratio_from_int n = am.of_text (itoa n)

  abbrev pub weight : D → D → Metric D
  weight part whole = elim (div_exact part whole) [
    | none ↦ record { actual = am.zero; as_percent = true; reason = codes "empty_portfolio" }
    | some w ↦ record { actual = w; as_percent = true; reason = [] }
  ]

  abbrev pub no_weight : Text → Metric D
  no_weight reason = record { actual = am.zero; as_percent = true; reason = reason }

  abbrev pub counted : ℕ → Metric D
  counted n = record { actual = ratio_from_int n; as_percent = false; reason = [] }

  unfoldable pub invested_value_base : PortfolioFacts D → D
  invested_value_base facts = am.sub facts.total_value_base facts.cash_value_base

  unfoldable pub matching_value : Option Filter → Map (Map Bool) → List (PositionFacts D) → D → D
  matching_value f universes [] sum = sum
  matching_value f universes (p ∷ ps) sum =
      matching_value f universes ps (if matches f p universes then am.add sum p.value_base else sum)

  abbrev pub is_unknown_universe : Option Filter → Map (Map Bool) → Bool
  is_unknown_universe none universes = false
  is_unknown_universe (some f) universes =
      not (is_empty f.universe)
      && elim (lookup f.universe universes) [ none ↦ true | some _ ↦ false ]

  unfoldable pub filtered_weight : Option Filter → PortfolioFacts D → Metric D
  unfolding matching_value
  filtered_weight f facts =
      let invested = invested_value_base facts in
      if not (am.is_positive invested)
      then no_weight (codes "empty_portfolio")
      else if is_unknown_universe f facts.universe_membership
      then no_weight (codes "unknown_universe")
      else weight (matching_value f facts.universe_membership facts.positions am.zero) invested

  unfoldable pub largest : List (PositionFacts D) → D → D
  largest [] best = best
  largest (p ∷ ps) best = largest ps (if am.is_less best p.value_base then p.value_base else best)

  unfoldable pub metric_value : Rule → PortfolioFacts D → Metric D
  unfolding largest
  metric_value r facts =
      if text_eq r.metric (codes "portfolio_weight")
      then filtered_weight r.filter facts
      else if text_eq r.metric (codes "cash_weight")
      then if not (am.is_positive facts.total_value_base)
        then no_weight (codes "empty_portfolio")
        else weight facts.cash_value_base facts.total_value_base
      else if text_eq r.metric (codes "largest_position_weight")
      then if not (am.is_positive (invested_value_base facts))
        then no_weight (codes "empty_portfolio")
        else weight (largest facts.positions am.zero) (invested_value_base facts)
      else if text_eq r.metric (codes "position_count")
      then counted (count_if (λ p. matches r.filter p facts.universe_membership) facts.positions)
      else if text_eq r.metric (codes "asset_class_count")
      then counted (length (asset_classes facts.positions))
      else if text_eq r.metric (codes "portfolio_age_days")
      then counted facts.portfolio_age_days
      else record { actual = am.zero; as_percent = false; reason = codes "unknown_metric" }

  unfoldable pub compare_rule : D → Rule → Bool
  compare_rule actual r =
      let value = am.of_text r.value in
      if text_eq r.operator (codes "gte")
      then not (am.is_less actual value)
      else if text_eq r.operator (codes "gt")
      then am.is_less value actual
      else if text_eq r.operator (codes "lte")
      then not (am.is_less value actual)
      else if text_eq r.operator (codes "lt")
      then am.is_less actual value
      else if text_eq r.operator (codes "eq")
      then am.is_equal actual value
      else if text_eq r.operator (codes "between")
      then not (am.is_less actual value) && not (am.is_less (am.of_text r.value_high) actual)
      else false

  unfoldable pub failure_reason : Text → Text
  failure_reason operator =
      if text_eq operator (codes "gte") || text_eq operator (codes "gt")
      then codes "below_required"
      else if text_eq operator (codes "lte") || text_eq operator (codes "lt")
      then codes "above_required"
      else if text_eq operator (codes "between")
      then codes "outside_range"
      else codes "not_equal"

  unfoldable pub display_value : D → Bool → Text
  display_value v as_percent =
      if as_percent
      then am.string_fixed (am.round_bank (am.mul v (am.of_text (codes "100"))) 2) 2
      else am.plain v

  unfoldable pub required_value : Rule → Bool → Text
  required_value r as_percent =
      let low = display_value (am.of_text r.value) as_percent in
      if text_eq r.operator (codes "between")
      then low ++ codes " - " ++ display_value (am.of_text r.value_high) as_percent
      else low

  unfoldable pub evaluate_rule : Rule → PortfolioFacts D → Evidence
  evaluate_rule r facts =
      let m = metric_value r facts in
      let passed = is_empty m.reason && compare_rule m.actual r in
      record {
        code = r.code;
        label = r.label;
        metric = r.metric;
        operator = r.operator;
        required = required_value r m.as_percent;
        actual = display_value m.actual m.as_percent;
        passed = passed;
        reason =
            if not (is_empty m.reason)
            then m.reason
            else if passed
            then []
            else failure_reason r.operator;
      }

  -- The loop over `All`: what is still eligible, and the evidence so far.
  unfoldable pub evaluate_all :
      List Rule → PortfolioFacts D → Bool × List Evidence → Bool × List Evidence
  evaluate_all [] facts s = s
  evaluate_all (r ∷ rs) facts (eligible, out) =
      let ev = evaluate_rule r facts in
      evaluate_all rs facts (if ev.passed then eligible else false, out ++ (ev ∷ []))

  -- The loop over `Any`: whether a rule has passed, and the evidence so far.
  unfoldable pub evaluate_any :
      List Rule → PortfolioFacts D → Bool × List Evidence → Bool × List Evidence
  evaluate_any [] facts s = s
  evaluate_any (r ∷ rs) facts (any_passed, out) =
      let ev = evaluate_rule r facts in
      evaluate_any rs facts (if ev.passed then true else any_passed, out ++ (ev ∷ []))

  abbrev pub any_fails : List Rule → Bool → Bool
  any_fails [] any_passed = false
  any_fails (_ ∷ _) any_passed = not any_passed

  unfoldable pub evaluate : Eligibility → PortfolioFacts D → ℕ → Outcome
  unfolding evaluate_all evaluate_any
  evaluate e facts now =
      let (eligible, out) = evaluate_all e.all facts (true, []) in
      let (any_passed, out') = evaluate_any e.any facts (false, out) in
      record {
        eligible = if any_fails e.any any_passed then false else eligible;
        evaluated_at = now;
        rules = out';
      }
