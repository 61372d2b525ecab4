-- ===== src/Performance/Neutral.antt =====
-- Mutations of a portfolio generate no ranked return.
use finance_app.Base.{◌≡◌, arith}
use finance_app.Performance.Defs.{Decimals, Laws, State, CheckpointInput}
use finance_app.Performance.Calculator.{
  calculate_current_index, calculate_index_before_mutation, apply_checkpoint, quantize_index,
  div_exact,
}

module _ {D : Type 0} (dec : Decimals D) {one : D} (laws : Laws dec one) where
  -- The ranked index right after a mutation, at the value after it, is the quantized index right
  -- before it, whatever the mutation did to the value and whether it started, kept or emptied the
  -- portfolio.
  pub apply_checkpoint_neutral :
      (prev : State D) (input : CheckpointInput D)
      → calculate_current_index dec (apply_checkpoint dec prev input) input.value_after_base
        ≡ quantize_index dec (calculate_index_before_mutation dec prev input)
  unfolding calculate_current_index apply_checkpoint div_exact
  apply_checkpoint_neutral prev input = ground (
    arith,
    laws.positive_nonzero input.value_after_base,
    laws.div_self input.value_after_base 36,
    laws.mul_one (quantize_index dec (calculate_index_before_mutation dec prev input)),
  )
