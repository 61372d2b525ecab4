-- ===== src/Competitions/Rules/Tests.antt =====
-- Rules on a small portfolio, over whole numbers.
use finance_app.Base.{
  ℕ, ◌≡◌, refl, ◌+◌, ◌-◌, ◌*◌, ◌/◌, true, ◌&&◌, ◌||◌, Option, none, some, [], ◌∷◌, ltb, ◌==◌,
  if◌then◌else◌, any_of, all_of,
}
use finance_app.Base.Assoc
use finance_app.Base.Text
use finance_app.Base.Text.{Text, codes, text_eq}
use finance_app.Competitions.Rules.Defs.{
  Filter, Rule, Eligibility, PositionFacts, PortfolioFacts, Amounts,
}
use finance_app.Competitions.Rules.Evaluate
use finance_app.Competitions.Rules.Evaluate.{evaluate, evaluate_rule}
use finance_app.Competitions.Rules.Outcome.{passes, no_rules, evaluate_eligible_iff}

abbrev whole : Amounts ℕ
whole = record {
  of_text = λ s. if text_eq s (codes "1") then 1 else 0;
  zero = 0;
  add = λ a b. a + b;
  sub = λ a b. a - b;
  mul = λ a b. a * b;
  div_round = λ a b places. a / b;
  round_bank = λ a places. a;
  is_zero = λ a. a == 0;
  is_positive = λ a. ltb 0 a;
  is_less = λ a b. ltb a b;
  is_equal = λ a b. a == b;
  string_fixed = λ a places. [];
  plain = λ a. [];
}

abbrev coin : PositionFacts ℕ
coin = record {
  instrument_id = codes "i-1";
  asset_type = codes "crypto";
  sector = [];
  venue_mic = [];
  issuer_country = [];
  listing_country = [];
  currency = codes "USD";
  value_base = 30;
}

abbrev facts : PortfolioFacts ℕ
facts = record {
  positions = coin ∷ [];
  cash_value_base = 70;
  total_value_base = 100;
  portfolio_age_days = 3;
  universe_membership = [];
}

abbrev of_universe : Filter
of_universe = record {
  asset_types = [];
  sectors = [];
  venue_mics = [];
  issuer_countries = [];
  listing_countries = [];
  currencies = [];
  instrument_ids = [];
  universe = codes "xist";
}

abbrev rule : Text → Text → Option Filter → Rule
rule metric operator filter = record {
  code = codes "r";
  label = codes "rule";
  metric = metric;
  filter = filter;
  operator = operator;
  value = codes "1";
  value_high = [];
}

abbrev crypto : Filter
crypto = record of_universe { asset_types = codes "crypto" ∷ []; universe = [] }

abbrev document : Eligibility
document = record {
  schema_version = 1;
  all = rule (codes "portfolio_weight") (codes "gte") (some crypto) ∷ [];
  any = rule (codes "position_count") (codes "gt") none ∷ [];
}

computing : Unit {0}
unfolding Assoc.lookup Text.text_eq Text.itoa Text.digits_from Evaluate.is_zero_filter
    Evaluate.value_in Evaluate.in_universe Evaluate.matches Evaluate.div_exact
    Evaluate.ratio_from_int Evaluate.invested_value_base Evaluate.matching_value
    Evaluate.filtered_weight Evaluate.largest Evaluate.metric_value Evaluate.compare_rule
    Evaluate.failure_reason Evaluate.display_value Evaluate.required_value Evaluate.evaluate_rule
    Evaluate.evaluate_all Evaluate.evaluate_any Evaluate.evaluate
computing = tt

-- All that is invested is crypto.
weight_passes :
    (evaluate_rule whole (rule (codes "portfolio_weight") (codes "gte") (some crypto)) facts).passed
    ≡ true
unfolding computing
weight_passes = refl

evaluate_eligible_iff_example : (evaluate whole document facts 5).eligible ≡ (
    all_of (passes whole facts) document.all
    && (no_rules document.any || any_of (passes whole facts) document.any))
evaluate_eligible_iff_example = evaluate_eligible_iff whole document facts 5
