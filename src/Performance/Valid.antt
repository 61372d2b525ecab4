-- ===== src/Performance/Valid.antt =====
-- Valid states stay valid, and what a checkpoint keeps.
use finance_app.Base.{ℕ, ◌≡◌, true, false, arith, ◌+◌, ◌^◌, ◌<◌}
use finance_app.Base.Result.{ok}
use finance_app.Performance.Defs.{Decimals, State, CheckpointInput}
use finance_app.Performance.Calculator.{
  calculate_current_index, apply_return_checkpoint, quantize_index, drained_index, floor_index,
  validate_state, was_active, bump_version, is_positive_version,
}

bump_version_lem :
    (v : ℕ)
    → v + 1 < 2 ^ 63
    → (bump_version v ≡ v + 1) × (is_positive_version (bump_version v) ≡ true)
unfolding bump_version is_positive_version
bump_version_lem v h = ground arith

module _ {D : Type 0} (dec : Decimals D) where
  -- A valid state of an active portfolio, whose next version fits 63 bits, stays valid through a
  -- return-bearing event, one that drains it to nothing included, where quantizing leaves the floor
  -- index positive, and with it every index that is not less.
  pub apply_return_checkpoint_valid :
      (prev : State D) (input : CheckpointInput D)
      → validate_state dec prev ≡ ok tt
      → prev.version + 1 < 2 ^ 63
      → was_active dec prev input ≡ true
      → dec.is_positive (quantize_index dec (floor_index dec)) ≡ true
      → ((i : D)
          → dec.is_less i (floor_index dec) ≡ false
          → dec.is_positive (quantize_index dec i) ≡ true)
      → validate_state dec (apply_return_checkpoint dec prev input) ≡ ok tt
  unfolding validate_state apply_return_checkpoint drained_index
  apply_return_checkpoint_valid prev input valid small before floor above = ground (
    arith,
    bump_version_lem prev.version small,
    above (calculate_current_index dec prev input.value_after_base),
  )

  -- A return-bearing event that leaves an active portfolio with a positive value keeps the segment:
  -- at every later value the index is what the old state gives there.
  pub apply_return_checkpoint_index :
      (prev : State D) (input : CheckpointInput D) (value : D)
      → was_active dec prev input ≡ true
      → input.has_active_after ≡ true
      → dec.is_positive input.value_after_base ≡ true
      → calculate_current_index dec (apply_return_checkpoint dec prev input) value
        ≡ calculate_current_index dec prev value
  unfolding apply_return_checkpoint calculate_current_index
  apply_return_checkpoint_index prev input value before after positive = ground arith
