-- ===== src/Performance/Defs.antt =====
-- performance/model.go, and the decimal arithmetic that money/money.go and money/types.go call.
use finance_app.Base.{ℕ, Bool, true, false, Option, ◌≡◌}
use finance_app.Base.Text.{Text}

-- What is used of the package shopspring/decimal, whose values are `D`: two decimals are equal where
-- `Equal` says so. The types `Amount`, `Ratio` and `IndexValue` wrap a decimal each.
pub record Decimals (D : Type 0) : Type 0 where
  -- `NewFromString`, on the constants of the code
  pub of_text : Text → D
  pub mul : D → D → D
  -- `DivRound`, with the number of decimal places
  pub div_round : D → D → ℕ → D
  -- `RoundBank`
  pub round_bank : D → ℕ → D
  pub is_zero : D → Bool
  -- `Sign() > 0`
  pub is_positive : D → Bool
  -- `Cmp(other) < 0`
  pub is_less : D → D → Bool

-- The documented behaviour of those operations that the theorems use.
pub record Laws {D : Type 0} (dec : Decimals D) (one : D) : Type 0 where
  pub positive_nonzero : (a : D) → dec.is_positive a ≡ true → dec.is_zero a ≡ false
  pub div_self : (a : D) (places : ℕ) → dec.is_zero a ≡ false → dec.div_round a a places ≡ one
  pub mul_one : (a : D) → dec.mul a one ≡ a
  pub round_again :
      (a : D) (places : ℕ)
      → dec.round_bank (dec.round_bank a places) places ≡ dec.round_bank a places

pub data Status : Type 0 where
  active paused : Status
  -- any other string
  unknown : Text → Status

-- `Version` is an `int64`, kept as its 64 bits.
pub record State (D : Type 0) : Type 0 where
  pub portfolio_id : Text
  pub user_id : Text
  pub checkpoint_index : D
  pub segment_start_value_base : Option D
  pub status : Status
  pub tracking_started_at : ℕ
  pub segment_started_at : Option ℕ
  pub updated_at : ℕ
  pub version : ℕ

pub record CheckpointInput (D : Type 0) : Type 0 where
  pub portfolio_id : Text
  pub user_id : Text
  pub value_before_base : D
  pub has_active_before : Bool
  pub value_after_base : D
  pub has_active_after : Bool
  pub at : ℕ

pub data PerformanceError : Type 0 where
  state_not_found version_conflict invalid_state : PerformanceError
