-- ===== src/Performance/Tests.antt =====
-- Ranked states over whole numbers, the decimals without places.
use native.Mathlib.Nat.{div_self}
use finance_app.Base.{
  ℕ, ◌≡◌, refl, ◌*◌, ◌/◌, true, false, some, [], ◌∷◌, ltb, ◌==◌, if◌then◌else◌, arith,
}
use finance_app.Base.Text
use finance_app.Base.Text.{codes, text_eq}
use finance_app.Base.Result.{ok}
use finance_app.Performance.Defs.{Decimals, Laws, State, Status, CheckpointInput}
use finance_app.Performance.Calculator
use finance_app.Performance.Calculator.{
  calculate_current_index, calculate_index_before_mutation, apply_checkpoint,
  apply_return_checkpoint, activate_state, quantize_index, validate_state,
}
use finance_app.Performance.Neutral.{apply_checkpoint_neutral}
use finance_app.Performance.Chain
use finance_app.Performance.Chain.{Mutation, Tracked, mutate_all, current_index, mutate_all_neutral}
use finance_app.Performance.Valid.{apply_return_checkpoint_valid}

abbrev whole : Decimals ℕ
whole = record {
  of_text = λ s. if text_eq s (codes "100") then 100 else 1;
  mul = λ a b. a * b;
  div_round = λ a b places. a / b;
  round_bank = λ a places. a;
  is_zero = λ a. a == 0;
  is_positive = λ a. ltb 0 a;
  is_less = λ a b. ltb a b;
}

whole-Laws : Laws whole 1
whole-Laws = record {
  positive_nonzero = λ a h. ground arith;
  div_self = λ a places h. div_self (ground arith);
  mul_one = λ a. omega arith;
  round_again = λ a places. refl;
}

computing : Unit {0}
unfolding Text.text_eq Calculator.bump_version Calculator.is_positive_version Calculator.div_exact
    Calculator.quantize_index Calculator.calculate_current_index
    Calculator.calculate_index_before_mutation Calculator.activate_state Calculator.apply_checkpoint
    Calculator.drained_index Calculator.apply_return_checkpoint Calculator.validate_state
    Chain.mutate Chain.mutate_all
computing = tt

-- A portfolio that starts at the value 50.
abbrev start : State ℕ
start = record {
  portfolio_id = codes "p";
  user_id = codes "u";
  checkpoint_index = 100;
  segment_start_value_base = some 50;
  status = Status.active;
  tracking_started_at = 1;
  segment_started_at = some 1;
  updated_at = 1;
  version = 1;
}

started : activate_state whole (codes "p") (codes "u") 50 true 1 ≡ start
unfolding computing
started = refl

-- The value has doubled, and 30 are added.
abbrev deposit : CheckpointInput ℕ
deposit = record {
  portfolio_id = codes "p";
  user_id = codes "u";
  value_before_base = 100;
  has_active_before = true;
  value_after_base = 130;
  has_active_after = true;
  at = 9;
}

-- A write-off of everything.
abbrev write_off : CheckpointInput ℕ
write_off = record deposit { value_after_base = 0; has_active_after = false }

doubled : calculate_current_index whole (apply_checkpoint whole start deposit) 130 ≡ 200
unfolding computing
doubled = refl

apply_checkpoint_neutral_example :
    calculate_current_index whole (apply_checkpoint whole start deposit) 130
    ≡ quantize_index whole (calculate_index_before_mutation whole start deposit)
apply_checkpoint_neutral_example = apply_checkpoint_neutral whole whole-Laws start deposit

abbrev tracked : Tracked ℕ
tracked = record { state = start; value = 100; has_active = true }

abbrev emptied : Mutation ℕ
emptied = record { value = 0; has_active = false; at = 10 }

abbrev resumed : Mutation ℕ
resumed = record { value = 70; has_active = true; at = 11 }

mutate_all_neutral_example :
    current_index whole (mutate_all whole tracked (emptied ∷ resumed ∷ []))
    ≡ quantize_index whole (current_index whole tracked)
unfolding computing
mutate_all_neutral_example = mutate_all_neutral whole whole-Laws tracked emptied (resumed ∷ []) refl

apply_return_checkpoint_valid_example :
    validate_state whole (apply_return_checkpoint whole start write_off) ≡ ok tt
unfolding computing
apply_return_checkpoint_valid_example =
    apply_return_checkpoint_valid whole start write_off refl (omega arith) refl refl
      (λ i h. ground arith)
