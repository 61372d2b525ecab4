-- ===== src/Performance/Calculator.antt =====
-- performance/calculator.go. The states are values, so `CloneState` is the identity.
use finance_app.Base.{
  ℕ, ◌+◌, ◌%◌, ◌^◌, Bool, true, false, not, ◌&&◌, ◌||◌, Option, none, some, if◌then◌else◌, ltb,
}
use finance_app.Base.Text.{Text, codes, is_empty}
use finance_app.Base.Result.{Result, ok, err}
use finance_app.Performance.Defs.{Decimals, Status, State, CheckpointInput, PerformanceError}

-- `money.ScaleIndex` and `money.ScaleValue`
abbrev pub scale_index : ℕ
scale_index = 18

abbrev pub scale_value : ℕ
scale_value = 18

abbrev pub is_active : Status → Bool
is_active Status.active = true
is_active Status.paused = false
is_active (Status.unknown _) = false

-- `state.Version + 1` on 64 bits, and `Version > 0` on an `int64`
unfoldable pub bump_version : ℕ → ℕ
bump_version v = (v + 1) % 2 ^ 64

unfoldable pub is_positive_version : ℕ → Bool
is_positive_version v = ltb 0 v && ltb v (2 ^ 63)

module _ {D : Type 0} (dec : Decimals D) where
  -- `Amount.DivExact`
  unfoldable pub div_exact : D → D → ℕ → Option D
  div_exact a b places = if dec.is_zero b then none else some (dec.div_round a b places)

  unfoldable pub quantize_index : D → D
  quantize_index i = dec.round_bank i scale_index

  -- `SegmentStartValueBase`, where it is not nil and positive
  abbrev pub positive_start : State D → Option D
  positive_start state = elim state.segment_start_value_base [
    | none ↦ none
    | some start ↦ if dec.is_positive start then some start else none
  ]

  abbrev pub index_at : D → Option D → D
  index_at checkpoint none = checkpoint
  index_at checkpoint (some ratio) = dec.mul checkpoint ratio

  unfoldable pub calculate_current_index : State D → D → D
  calculate_current_index state value =
      if not (is_active state.status) then state.checkpoint_index else elim (positive_start state) [
        | none ↦ state.checkpoint_index
        | some start ↦
            index_at state.checkpoint_index (div_exact value start (scale_index + scale_value))
      ]

  abbrev pub is_some_start : Option D → Bool
  is_some_start none = false
  is_some_start (some _) = true

  abbrev pub was_active : State D → CheckpointInput D → Bool
  was_active state input =
      is_active state.status && is_some_start (positive_start state) && input.has_active_before

  unfoldable pub calculate_index_before_mutation : State D → CheckpointInput D → D
  calculate_index_before_mutation state input =
      if was_active state input
      then calculate_current_index state input.value_before_base
      else state.checkpoint_index

  unfoldable pub activate_state : Text → Text → D → Bool → ℕ → State D
  activate_state portfolio_id user_id value has_active at = record {
    portfolio_id = portfolio_id;
    user_id = user_id;
    checkpoint_index = dec.of_text (codes "100");
    segment_start_value_base = if has_active then some value else none;
    status = if has_active then Status.active else Status.paused;
    tracking_started_at = at;
    segment_started_at = if has_active then some at else none;
    updated_at = at;
    version = 1;
  }

  -- A pause keeps the time at which the segment started.
  unfoldable pub apply_checkpoint : State D → CheckpointInput D → State D
  apply_checkpoint prev input = record prev {
    updated_at = input.at;
    checkpoint_index = quantize_index (calculate_index_before_mutation prev input);
    version = bump_version prev.version;
    status = if input.has_active_after then Status.active else Status.paused;
    segment_start_value_base = if input.has_active_after then some input.value_after_base else none;
    segment_started_at = if input.has_active_after then some input.at else prev.segment_started_at;
  }

  abbrev pub floor_index : D
  floor_index = dec.of_text (codes "0.000000001")

  unfoldable pub drained_index : State D → CheckpointInput D → D
  drained_index prev input =
      let index = calculate_current_index prev input.value_after_base in
      quantize_index (if dec.is_less index floor_index then floor_index else index)

  unfoldable pub apply_return_checkpoint : State D → CheckpointInput D → State D
  apply_return_checkpoint prev input =
      if not (was_active prev input)
      then apply_checkpoint prev input
      else if input.has_active_after && dec.is_positive input.value_after_base
      then record prev {
        version = bump_version prev.version;
        updated_at = input.at;
        status = Status.active;
      }
      else record prev {
        version = bump_version prev.version;
        updated_at = input.at;
        checkpoint_index = drained_index prev input;
        status = Status.paused;
        segment_start_value_base = none;
        segment_started_at = none;
      }

  abbrev pub is_valid_segment : Status → Option D → Bool
  is_valid_segment Status.active none = false
  is_valid_segment Status.active (some start) = dec.is_positive start
  is_valid_segment Status.paused none = true
  is_valid_segment Status.paused (some _) = false
  is_valid_segment (Status.unknown _) start = false

  unfoldable pub validate_state : State D → Result PerformanceError (Unit {0})
  validate_state state =
      if is_empty state.portfolio_id || is_empty state.user_id
      then err PerformanceError.invalid_state
      else if not (dec.is_positive state.checkpoint_index)
      then err PerformanceError.invalid_state
      else if not (is_positive_version state.version)
      then err PerformanceError.invalid_state
      else if is_valid_segment state.status state.segment_start_value_base
      then ok tt
      else err PerformanceError.invalid_state
