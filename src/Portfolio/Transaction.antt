-- ===== src/Portfolio/Transaction.antt =====
-- portfolio/memory_store.go: the methods of `memoryTx`. Each answers an error, or the staged
-- transaction with its write.
use finance_app.Base.{
  ℕ, Bool, true, false, not, ◌&&◌, Option, none, some, List, [], ◌∷◌, ◌++◌, if◌then◌else◌, ◌≡◌,
  ◌==◌, any_of, find_first,
}
use finance_app.Base.Text.{Text, is_empty, text_eq}
use finance_app.Base.Assoc.{Map, lookup, insert, erase}
use finance_app.Base.Result.{Result, ok, err, ◌>>◌, refuse_if}
use finance_app.Performance.{State, PerformanceError}
use finance_app.Performance.Calculator.{validate_state}
use finance_app.Portfolio.Defs.{
  StoreError, Numbers, CashBalance, Activity, Position, OutboxEvent, MutationAudit, Faults, Tx,
  position_status_open,
}

-- `if err := t.store.faults.X; err != nil { return err }`
abbrev pub fault_free : Option StoreError → Result StoreError (Unit {0})
fault_free none = ok tt
fault_free (some e) = err e

-- service.go's `positionStatus`.
unfoldable pub position_status : {D : Type 0} → Position D → Text
position_status p = if is_empty p.status then position_status_open else p.status

abbrev pub has_request : {D : Type 0} → Text → Activity D → Bool
has_request id a = not (is_empty id) && text_eq a.request_id id

module _ {D : Type 0} (num : Numbers D) (faults : Faults) where
  unfoldable pub put_cash_balance : CashBalance D → Tx D → Result StoreError (Tx D)
  put_cash_balance balance t = do
    fault_free faults.put_cash
    refuse_if (num.is_negative balance.amount) StoreError.insufficient_cash
    ok (record t { cash = insert balance.currency balance t.cash })

  unfoldable pub record_activity : Activity D → Tx D → Result StoreError (Tx D)
  record_activity a t = do
    fault_free faults.record_activity
    refuse_if (any_of (has_request a.request_id) t.activities) StoreError.duplicate_activity
    ok (record t { activities = t.activities ++ (a ∷ []) })

  unfoldable pub find_activity_by_request_id : Text → Tx D → Option (Activity D)
  find_activity_by_request_id id t = find_first (λ a. text_eq a.request_id id) t.activities

  abbrev pub opened : Position D → Position D
  opened p = record p { status = if is_empty p.status then position_status_open else p.status }

  unfoldable pub create_position : Position D → Tx D → Result StoreError (Tx D)
  create_position p t = do
    fault_free faults.create_position
    ok (record t { positions = insert p.id (opened p) t.positions; order = t.order ++ (p.id ∷ []) })

  -- `if _, ok := t.positions[id]; !ok { return ErrPositionNotFound }`
  abbrev known_position : Text → Tx D → Result StoreError (Unit {0})
  known_position id t = elim (lookup id t.positions) [
    | none ↦ err StoreError.position_not_found
    | some _ ↦ ok tt
  ]

  unfoldable pub update_position : Position D → Tx D → Result StoreError (Tx D)
  update_position p t = do
    fault_free faults.update_position
    known_position p.id t
    ok (record t { positions = insert p.id p t.positions })

  -- The loop that takes the first occurrence out of the order.
  unfoldable pub remove_first : Text → List Text → List Text
  remove_first id [] = []
  remove_first id (o ∷ os) = let rest = remove_first id os in if text_eq o id then os else o ∷ rest

  unfoldable pub delete_position : Text → Tx D → Result StoreError (Tx D)
  delete_position id t = do
    fault_free faults.delete_position
    known_position id t
    ok (record t { positions = erase id t.positions; order = remove_first id t.order })

  -- The first loop of `ReplaceOpenPositions`: the closed positions stay, with the order of the rest.
  unfoldable pub drop_open : List Text → Map (Position D) → List Text × Map (Position D)
  drop_open [] ps = ([], ps)
  drop_open (id ∷ ids) ps = elim (lookup id ps) [
    | none ↦ (let (kept, ps') = drop_open ids ps in (id ∷ kept, ps'))
    | some p ↦
        if text_eq (position_status p) position_status_open
        then drop_open ids (erase id ps)
        else (let (kept, ps') = drop_open ids ps in (id ∷ kept, ps'))
  ]

  unfoldable pub add_positions :
      List (Position D) → List Text × Map (Position D) → List Text × Map (Position D)
  add_positions [] s = s
  add_positions (p ∷ ps) (order, positions) =
      add_positions ps (order ++ (p.id ∷ []), insert p.id (opened p) positions)

  unfoldable pub replace_open_positions : List (Position D) → Tx D → Result StoreError (Tx D)
  replace_open_positions new t = do
    fault_free faults.replace_positions
    ok (
        let (order, positions) = add_positions new (drop_open t.order t.positions) in
        record t { order = order; positions = positions })

  -- The tests of `PutRankedState` on what is stored.
  unfoldable pub ranked_state_checks : Bool → ℕ → Tx D → Result StoreError (Unit {0})
  ranked_state_checks true expected t = do
    fault_free faults.insert_ranked_state
    elim t.ranked [
      | none ↦ ok tt
      | some _ ↦ err (StoreError.performance PerformanceError.version_conflict)
    ]
  ranked_state_checks false expected t = do
    fault_free faults.update_ranked_state
    elim t.ranked [
      | none ↦ err (StoreError.performance PerformanceError.state_not_found)
      | some st ↦
          refuse_if (not (st.version == expected))
            (StoreError.performance PerformanceError.version_conflict)
    ]

  abbrev valid_state : State D → Result StoreError (Unit {0})
  valid_state st = elim (validate_state num.decimals st) [
    | ok _ ↦ ok tt
    | err e ↦ err (StoreError.performance e)
  ]

  unfoldable pub put_ranked_state : State D → Bool → ℕ → Tx D → Result StoreError (Tx D)
  put_ranked_state st is_new expected t = do
    ranked_state_checks is_new expected t
    valid_state st
    ok (record t { ranked = some st; ranked_dirty = true })

  unfoldable pub set_portfolio_version : ℕ → Tx D → Result StoreError (Tx D)
  set_portfolio_version version t = do
    fault_free faults.set_portfolio_version
    ok (record t { new_version = some version })

  unfoldable pub append_outbox : OutboxEvent D → Tx D → Result StoreError (Tx D)
  append_outbox ev t = do
    fault_free faults.append_outbox
    ok (record t { outbox = t.outbox ++ (ev ∷ []) })

  unfoldable pub record_audit : MutationAudit D → Tx D → Result StoreError (Tx D)
  record_audit a t = do
    fault_free faults.record_audit
    ok (record t { audits = t.audits ++ (a ∷ []) })

  -- The writes of a transaction, one after the other. What a body reads between them does not
  -- change it.
  pub data Writes (t : Tx D) : Tx D → Type 0 where
    none_yet : Writes t t
    cash :
        {u v : Tx D} → Writes t u → (b : CashBalance D) → put_cash_balance b u ≡ ok v → Writes t v
    activity :
        {u v : Tx D} → Writes t u → (a : Activity D) → record_activity a u ≡ ok v → Writes t v
    created : {u v : Tx D} → Writes t u → (p : Position D) → create_position p u ≡ ok v → Writes t v
    updated : {u v : Tx D} → Writes t u → (p : Position D) → update_position p u ≡ ok v → Writes t v
    deleted : {u v : Tx D} → Writes t u → (id : Text) → delete_position id u ≡ ok v → Writes t v
    replaced :
        {u v : Tx D}
        → Writes t u
        → (ps : List (Position D)) → replace_open_positions ps u ≡ ok v
        → Writes t v
    ranked :
        {u v : Tx D}
        → Writes t u
        → (st : State D) (is_new : Bool) (expected : ℕ)
        → put_ranked_state st is_new expected u ≡ ok v
        → Writes t v
    version : {u v : Tx D} → Writes t u → (n : ℕ) → set_portfolio_version n u ≡ ok v → Writes t v
    event : {u v : Tx D} → Writes t u → (e : OutboxEvent D) → append_outbox e u ≡ ok v → Writes t v
    audit : {u v : Tx D} → Writes t u → (a : MutationAudit D) → record_audit a u ≡ ok v → Writes t v
