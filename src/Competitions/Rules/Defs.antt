-- ===== src/Competitions/Rules/Defs.antt =====
-- competitions/rules/schema.go and the facts of evaluate.go. `D` are the decimals.
use finance_app.Base.{ℕ, Bool, Option, List}
use finance_app.Base.Text.{Text}
use finance_app.Base.Assoc.{Map}

pub record Filter : Type 0 where
  pub asset_types : List Text
  pub sectors : List Text
  pub venue_mics : List Text
  pub issuer_countries : List Text
  pub listing_countries : List Text
  pub currencies : List Text
  pub instrument_ids : List Text
  pub universe : Text

pub record Rule : Type 0 where
  pub code : Text
  pub label : Text
  pub metric : Text
  pub filter : Option Filter
  pub operator : Text
  pub value : Text
  pub value_high : Text

pub record Eligibility : Type 0 where
  pub schema_version : ℕ
  pub all : List Rule
  pub any : List Rule

pub record PositionFacts (D : Type 0) : Type 0 where
  pub instrument_id : Text
  pub asset_type : Text
  pub sector : Text
  pub venue_mic : Text
  pub issuer_country : Text
  pub listing_country : Text
  pub currency : Text
  pub value_base : D

-- `PortfolioAgeDays` is an `int` that is read as 0 where it is negative.
pub record PortfolioFacts (D : Type 0) : Type 0 where
  pub positions : List (PositionFacts D)
  pub cash_value_base : D
  pub total_value_base : D
  pub portfolio_age_days : ℕ
  pub universe_membership : Map (Map Bool)

pub record Evidence : Type 0 where
  pub code : Text
  pub label : Text
  pub metric : Text
  pub operator : Text
  pub required : Text
  pub actual : Text
  pub passed : Bool
  pub reason : Text

pub record Outcome : Type 0 where
  pub eligible : Bool
  pub evaluated_at : ℕ
  pub rules : List Evidence

-- What is used of the package shopspring/decimal, and `plain`, the canonical text of a decimal.
pub record Amounts (D : Type 0) : Type 0 where
  -- `NewFromString`; thresholds have been parsed before
  pub of_text : Text → D
  pub zero : D
  pub add : D → D → D
  pub sub : D → D → D
  pub mul : D → D → D
  -- `DivRound` and `RoundBank`, with the number of decimal places
  pub div_round : D → D → ℕ → D
  pub round_bank : D → ℕ → D
  pub is_zero : D → Bool
  -- `Sign() > 0`
  pub is_positive : D → Bool
  -- `Cmp`, below and equal
  pub is_less : D → D → Bool
  pub is_equal : D → D → Bool
  pub string_fixed : D → ℕ → Text
  pub plain : D → Text
