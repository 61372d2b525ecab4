-- ===== src/Portfolio/Laws/Ledger.antt =====
-- What each write of a transaction keeps: no cash balance is negative, no request is recorded twice,
-- and the portfolio row of the snapshot stays.
use finance_app.Base.{
  ℕ, ◌≡◌, refl, ◌∙◌, Bool, true, false, not, ◌&&◌, some, List, [], ◌∷◌, ◌++◌, arith, Option-cases,
  Bool-cases, inl, inr, any_of,
}
use finance_app.Base.Text.{Text, text_eq_iff}
use finance_app.Base.Assoc.{Map, lookup, lookup-insert}
use finance_app.Base.Result.{ok, Result-cases}
use finance_app.Performance.{State}
use finance_app.Performance.Calculator.{validate_state}
use finance_app.Portfolio.Defs.{
  Numbers, CashBalance, Activity, Position, OutboxEvent, MutationAudit, Faults, Tx,
}
use finance_app.Portfolio.Transaction
use finance_app.Portfolio.Transaction.{Writes, has_request}

module _ {D : Type 0} (num : Numbers D) where
  -- No request id, but for the empty one, stands twice.
  abbrev pub requests_distinct : List (Activity D) → Bool
  requests_distinct [] = true
  requests_distinct (a ∷ rest) =
      not (any_of (has_request a.request_id) rest) && requests_distinct rest

  any_of-append :
      (id : Text) (a : Activity D) (xs : List (Activity D))
      → has_request id a ≡ false
      → any_of (has_request id) xs ≡ false
      → any_of (has_request id) (xs ++ (a ∷ [])) ≡ false
  any_of-append id a [] h k = ground arith
  any_of-append id a (x ∷ xs) h k = ground (arith, any_of-append id a xs)

  requests_distinct-append :
      (a : Activity D) (xs : List (Activity D))
      → requests_distinct xs ≡ true
      → any_of (has_request a.request_id) xs ≡ false
      → requests_distinct (xs ++ (a ∷ [])) ≡ true
  requests_distinct-append a [] h k = refl
  requests_distinct-append a (x ∷ xs) h k = ground (
    arith,
    any_of-append x.request_id a xs,
    requests_distinct-append a xs,
    text_eq_iff a.request_id x.request_id,
    text_eq_iff x.request_id a.request_id,
  )

  -- The two invariants of cash and activities.
  pub record IsSound (cash : Map (CashBalance D)) (activities : List (Activity D)) : Type 0 where
    pub funded :
        (c : Text) (b : CashBalance D) → lookup c cash ≡ some b → num.is_negative b.amount ≡ false
    pub distinct : requests_distinct activities ≡ true

  module _ (f : Faults) where
    put_cash_balance-IsSound :
        (b : CashBalance D) (u v : Tx D)
        → Transaction.put_cash_balance num f b u ≡ ok v
        → IsSound u.cash u.activities
        → IsSound v.cash v.activities
    unfolding Transaction.put_cash_balance
    put_cash_balance-IsSound b u v h s = elim (Option-cases f.put_cash) [
      | inr (e, k) ↦ absurd (ground arith)
      | inl k ↦ elim (Bool-cases (num.is_negative b.amount)) [
        | inl n ↦ absurd (ground arith)
        | inr n ↦ record {
          funded = λ c d g. ground (arith, s.funded c d, lookup-insert b.currency c b u.cash);
          distinct = ground (arith, s.distinct);
        }
      ]
    ]

    record_activity-IsSound :
        (a : Activity D) (u v : Tx D)
        → Transaction.record_activity num f a u ≡ ok v
        → IsSound u.cash u.activities
        → IsSound v.cash v.activities
    unfolding Transaction.record_activity
    record_activity-IsSound a u v h s = elim (Option-cases f.record_activity) [
      | inr (e, k) ↦ absurd (ground arith)
      | inl k ↦ elim (Bool-cases (any_of (has_request a.request_id) u.activities)) [
        | inl n ↦ absurd (ground arith)
        | inr n ↦ record {
          funded = λ c d g. ground (arith, s.funded c d);
          distinct = ground (arith, requests_distinct-append a u.activities s.distinct n);
        }
      ]
    ]

    kept-IsSound :
        (u v : Tx D)
        → v.cash ≡ u.cash
        → v.activities ≡ u.activities
        → IsSound u.cash u.activities
        → IsSound v.cash v.activities
    kept-IsSound u v c a s = record {
      funded = λ k d g. ground (arith, s.funded k d);
      distinct = ground (arith, s.distinct);
    }

    -- What the other writes leave alone.
    abbrev Keeps : Tx D → Tx D → Type 0
    Keeps u v = (v.cash ≡ u.cash) × (v.activities ≡ u.activities) × (v.portfolio ≡ u.portfolio)

    create_position-Keeps :
        (p : Position D) (u v : Tx D) → Transaction.create_position num f p u ≡ ok v → Keeps u v
    unfolding Transaction.create_position
    create_position-Keeps p u v h = elim (Option-cases f.create_position) [
      | inl k ↦ ground arith
      | inr (e, k) ↦ absurd (ground arith)
    ]

    update_position-Keeps :
        (p : Position D) (u v : Tx D) → Transaction.update_position num f p u ≡ ok v → Keeps u v
    unfolding Transaction.update_position
    update_position-Keeps p u v h = elim (Option-cases f.update_position) [
      | inl k ↦ ground arith
      | inr (e, k) ↦ absurd (ground arith)
    ]

    delete_position-Keeps :
        (id : Text) (u v : Tx D) → Transaction.delete_position num f id u ≡ ok v → Keeps u v
    unfolding Transaction.delete_position
    delete_position-Keeps id u v h = elim (Option-cases f.delete_position) [
      | inl k ↦ ground arith
      | inr (e, k) ↦ absurd (ground arith)
    ]

    replace_open_positions-Keeps :
        (ps : List (Position D)) (u v : Tx D)
        → Transaction.replace_open_positions num f ps u ≡ ok v
        → Keeps u v
    unfolding Transaction.replace_open_positions
    replace_open_positions-Keeps ps u v h = elim (Option-cases f.replace_positions) [
      | inl k ↦ ground arith
      | inr (e, k) ↦ absurd (ground arith)
    ]

    set_portfolio_version-Keeps :
        (n : ℕ) (u v : Tx D) → Transaction.set_portfolio_version num f n u ≡ ok v → Keeps u v
    unfolding Transaction.set_portfolio_version
    set_portfolio_version-Keeps n u v h = elim (Option-cases f.set_portfolio_version) [
      | inl k ↦ ground arith
      | inr (e, k) ↦ absurd (ground arith)
    ]

    append_outbox-Keeps :
        (e : OutboxEvent D) (u v : Tx D) → Transaction.append_outbox num f e u ≡ ok v → Keeps u v
    unfolding Transaction.append_outbox
    append_outbox-Keeps e u v h = elim (Option-cases f.append_outbox) [
      | inl k ↦ ground arith
      | inr (e, k) ↦ absurd (ground arith)
    ]

    record_audit-Keeps :
        (a : MutationAudit D) (u v : Tx D) → Transaction.record_audit num f a u ≡ ok v → Keeps u v
    unfolding Transaction.record_audit
    record_audit-Keeps a u v h = elim (Option-cases f.record_audit) [
      | inl k ↦ ground arith
      | inr (e, k) ↦ absurd (ground arith)
    ]

    put_cash_balance-portfolio :
        (b : CashBalance D) (u v : Tx D)
        → Transaction.put_cash_balance num f b u ≡ ok v
        → v.portfolio ≡ u.portfolio
    unfolding Transaction.put_cash_balance
    put_cash_balance-portfolio b u v h = elim (Option-cases f.put_cash) [
      | inl k ↦ ground arith
      | inr (e, k) ↦ absurd (ground arith)
    ]

    record_activity-portfolio :
        (a : Activity D) (u v : Tx D)
        → Transaction.record_activity num f a u ≡ ok v
        → v.portfolio ≡ u.portfolio
    unfolding Transaction.record_activity
    record_activity-portfolio a u v h = elim (Option-cases f.record_activity) [
      | inl k ↦ ground arith
      | inr (e, k) ↦ absurd (ground arith)
    ]

    put_ranked_state-Keeps :
        (st : State D) (is_new : Bool) (expected : ℕ) (u v : Tx D)
        → Transaction.put_ranked_state num f st is_new expected u ≡ ok v
        → Keeps u v
    unfolding Transaction.put_ranked_state
    put_ranked_state-Keeps st is_new expected u v h =
        elim (Result-cases (Transaction.ranked_state_checks num f is_new expected u)) [
          | inl (done, k) ↦ elim (Result-cases (validate_state num.decimals st)) [
            | inl (valid, m) ↦ ground arith
            | inr (e, m) ↦ absurd (ground arith)
          ]
          | inr (e, k) ↦ absurd (ground arith)
        ]

    -- The portfolio row that a transaction started from is what it still holds at its end.
    pub Writes-portfolio : (t v : Tx D) → Writes num f t v → v.portfolio ≡ t.portfolio
    Writes-portfolio t v Writes.none_yet = refl
    Writes-portfolio t v (Writes.cash {u} w b h) =
        put_cash_balance-portfolio b u v h ∙ Writes-portfolio t u w
    Writes-portfolio t v (Writes.activity {u} w a h) =
        record_activity-portfolio a u v h ∙ Writes-portfolio t u w
    Writes-portfolio t v (Writes.created {u} w p h) =
        (create_position-Keeps p u v h).2 ∙ Writes-portfolio t u w
    Writes-portfolio t v (Writes.updated {u} w p h) =
        (update_position-Keeps p u v h).2 ∙ Writes-portfolio t u w
    Writes-portfolio t v (Writes.deleted {u} w id h) =
        (delete_position-Keeps id u v h).2 ∙ Writes-portfolio t u w
    Writes-portfolio t v (Writes.replaced {u} w ps h) =
        (replace_open_positions-Keeps ps u v h).2 ∙ Writes-portfolio t u w
    Writes-portfolio t v (Writes.ranked {u} w st is_new expected h) =
        (put_ranked_state-Keeps st is_new expected u v h).2 ∙ Writes-portfolio t u w
    Writes-portfolio t v (Writes.version {u} w n h) =
        (set_portfolio_version-Keeps n u v h).2 ∙ Writes-portfolio t u w
    Writes-portfolio t v (Writes.event {u} w e h) =
        (append_outbox-Keeps e u v h).2 ∙ Writes-portfolio t u w
    Writes-portfolio t v (Writes.audit {u} w a h) =
        (record_audit-Keeps a u v h).2 ∙ Writes-portfolio t u w

    by_Keeps : (u v : Tx D) → Keeps u v → IsSound u.cash u.activities → IsSound v.cash v.activities
    by_Keeps u v k s = kept-IsSound u v k.0 k.1 s

    pub Writes-IsSound :
        (t v : Tx D) → Writes num f t v → IsSound t.cash t.activities → IsSound v.cash v.activities
    Writes-IsSound t v Writes.none_yet s = s
    Writes-IsSound t v (Writes.cash {u} w b h) s =
        put_cash_balance-IsSound b u v h (Writes-IsSound t u w s)
    Writes-IsSound t v (Writes.activity {u} w a h) s =
        record_activity-IsSound a u v h (Writes-IsSound t u w s)
    Writes-IsSound t v (Writes.created {u} w p h) s =
        by_Keeps u v (create_position-Keeps p u v h) (Writes-IsSound t u w s)
    Writes-IsSound t v (Writes.updated {u} w p h) s =
        by_Keeps u v (update_position-Keeps p u v h) (Writes-IsSound t u w s)
    Writes-IsSound t v (Writes.deleted {u} w id h) s =
        by_Keeps u v (delete_position-Keeps id u v h) (Writes-IsSound t u w s)
    Writes-IsSound t v (Writes.replaced {u} w ps h) s =
        by_Keeps u v (replace_open_positions-Keeps ps u v h) (Writes-IsSound t u w s)
    Writes-IsSound t v (Writes.ranked {u} w st is_new expected h) s =
        by_Keeps u v (put_ranked_state-Keeps st is_new expected u v h) (Writes-IsSound t u w s)
    Writes-IsSound t v (Writes.version {u} w n h) s =
        by_Keeps u v (set_portfolio_version-Keeps n u v h) (Writes-IsSound t u w s)
    Writes-IsSound t v (Writes.event {u} w e h) s =
        by_Keeps u v (append_outbox-Keeps e u v h) (Writes-IsSound t u w s)
    Writes-IsSound t v (Writes.audit {u} w a h) s =
        by_Keeps u v (record_audit-Keeps a u v h) (Writes-IsSound t u w s)
