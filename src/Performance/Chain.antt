-- ===== src/Performance/Chain.antt =====
-- Chains of mutations at unchanged prices, each valued where the last one left the portfolio.
use finance_app.Base.{ℕ, ◌≡◌, ◌∙◌, ap, Bool, List, [], ◌∷◌, arith}
use finance_app.Performance.Defs.{Decimals, Laws, State, CheckpointInput}
use finance_app.Performance.Calculator.{
  calculate_current_index, calculate_index_before_mutation, apply_checkpoint, quantize_index,
  is_active,
}
use finance_app.Performance.Neutral.{apply_checkpoint_neutral}

-- What a mutation makes of the portfolio: its value, whether a position is left, and the time.
pub record Mutation (D : Type 0) : Type 0 where
  pub value : D
  pub has_active : Bool
  pub at : ℕ

-- A ranked state with the value of its portfolio and whether it holds a position.
pub record Tracked (D : Type 0) : Type 0 where
  pub state : State D
  pub value : D
  pub has_active : Bool

module _ {D : Type 0} (dec : Decimals D) where
  abbrev pub input_of : Tracked D → Mutation D → CheckpointInput D
  input_of t m = record {
    portfolio_id = t.state.portfolio_id;
    user_id = t.state.user_id;
    value_before_base = t.value;
    has_active_before = t.has_active;
    value_after_base = m.value;
    has_active_after = m.has_active;
    at = m.at;
  }

  unfoldable pub mutate : Tracked D → Mutation D → Tracked D
  mutate t m = record {
    state = apply_checkpoint dec t.state (input_of t m);
    value = m.value;
    has_active = m.has_active;
  }

  unfoldable pub mutate_all : Tracked D → List (Mutation D) → Tracked D
  mutate_all t [] = t
  mutate_all t (m ∷ ms) = mutate_all (mutate t m) ms

  abbrev pub current_index : Tracked D → D
  current_index t = calculate_current_index dec t.state t.value

  before_is_current :
      (t : Tracked D) (m : Mutation D)
      → is_active t.state.status ≡ t.has_active
      → calculate_index_before_mutation dec t.state (input_of t m) ≡ current_index t
  unfolding calculate_current_index calculate_index_before_mutation
  before_is_current t m same = ground arith

  mutate-status :
      (t : Tracked D) (m : Mutation D)
      → is_active (mutate t m).state.status ≡ (mutate t m).has_active
  unfolding mutate apply_checkpoint
  mutate-status t m = ground arith

  module _ {one : D} (laws : Laws dec one) where
    mutate-index :
        (t : Tracked D) (m : Mutation D)
        → is_active t.state.status ≡ t.has_active
        → current_index (mutate t m) ≡ quantize_index dec (current_index t)
    unfolding mutate
    mutate-index t m same =
        apply_checkpoint_neutral dec laws t.state (input_of t m)
        ∙ ap (quantize_index dec) (before_is_current t m same)

    -- However many mutations follow one another while no price moves, with the portfolio emptied and
    -- resumed at will, the ranked index is in the end the quantized index of the beginning, where the
    -- state was active exactly if the portfolio held a position and the decimals keep their laws.
    pub mutate_all_neutral :
        (t : Tracked D) (m : Mutation D) (ms : List (Mutation D))
        → is_active t.state.status ≡ t.has_active
        → current_index (mutate_all t (m ∷ ms)) ≡ quantize_index dec (current_index t)
    unfolding mutate_all quantize_index
    mutate_all_neutral t m [] same = mutate-index t m same
    mutate_all_neutral t m (n ∷ ns) same =
        mutate_all_neutral (mutate t m) n ns (mutate-status t m)
        ∙ ap (quantize_index dec) (mutate-index t m same)
        ∙ laws.round_again (current_index t) 18
