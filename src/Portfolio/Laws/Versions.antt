-- ===== src/Portfolio/Laws/Versions.antt =====
-- The versions of a ranked state in one transaction: a write that was computed from a state that has
-- been written over is refused.
use finance_app.Base.{ℕ, ◌^◌, ◌<◌, ◌≡◌, false, some, List, [], ◌∷◌}
use finance_app.Base.Result.{Result, ok, err}
use finance_app.Performance.{State, CheckpointInput}
use finance_app.Performance.Calculator.{apply_checkpoint, apply_return_checkpoint}
use finance_app.Portfolio.Defs.{StoreError, Numbers, Faults, Tx}
use finance_app.Portfolio.Transaction.{put_ranked_state}

-- The two ways to compute a new ranked state, each from a state that was read, by a mutation or by a
-- return-bearing event.
pub data Update (D : Type 0) : Type 0 where
  checkpoint return_checkpoint : State D → CheckpointInput D → Update D

module _ {D : Type 0} where
  abbrev pub base : Update D → State D
  base (checkpoint prev input) = prev
  base (return_checkpoint prev input) = prev

module _ {D : Type 0} (num : Numbers D) (faults : Faults) where
  abbrev pub next_state : Update D → State D
  next_state (checkpoint prev input) = apply_checkpoint num.decimals prev input
  next_state (return_checkpoint prev input) = apply_return_checkpoint num.decimals prev input

  -- The new state is written with the version that was read.
  abbrev pub update : Update D → Tx D → Result StoreError (Tx D)
  update u t = put_ranked_state num faults (next_state u) false (base u).version t

  abbrev pub attempt : Update D → Tx D → Tx D
  attempt u t = elim (update u t) [ err _ ↦ t | ok t' ↦ t' ]

  unfoldable pub attempts : List (Update D) → Tx D → Tx D
  attempts [] t = t
  attempts (u ∷ us) t = attempts us (attempt u t)

  -- The ranked state has a version over `v` that an `int64` holds.
  abbrev IsAfter : ℕ → Tx D → Type 0
  IsAfter v t = (st : State D) × (t.ranked ≡ some st) × (v < st.version) × (st.version < 2 ^ 63)
