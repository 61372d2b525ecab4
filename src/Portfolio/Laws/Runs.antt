-- ===== src/Portfolio/Laws/Runs.antt =====
-- The ledger of every portfolio after any transactions.
use finance_app.Base.{
  ℕ, ◌≡◌, refl, sym, subst, Bool, Option, some, List, [], ◌∷◌, arith, Option-cases, Bool-cases, inl,
  inr,
}
use finance_app.Base.Text.{Text, text_eq}
use finance_app.Base.Assoc.{lookup, insert, lookup-insert}
use finance_app.Base.Result.{Result, ok}
use finance_app.Portfolio.Defs.{
  StoreError, Numbers, Aggregate, Tx, Repository, new_in_memory_repository,
}
use finance_app.Portfolio.Transaction.{Writes}
use finance_app.Portfolio.Store.{
  aggregate_for, begin, committed, with_locked_portfolio, set_auto_fund_purchases, new_aggregate,
  default_portfolio,
}
use finance_app.Portfolio.Laws.Ledger.{IsSound, Writes-IsSound}
use finance_app.Portfolio.Laws.Transactions.{transaction-aggregates}

module _ {D : Type 0} (num : Numbers D) where
  abbrev pub Body : Type 0
  Body = Repository D → Tx D → Result StoreError (Unit {0} × Tx D)

  -- A body that writes by the methods of the transaction only.
  abbrev pub WritesOnly : Body → Type 0
  WritesOnly body =
      (r : Repository D) (t v : Tx D) → body r t ≡ ok (tt, v) → Writes num r.faults t v

  -- Calls of the store that write: a transaction with what its context answers, the time, a new id
  -- and the user; and the preference.
  pub data Call : Type 0 where
    transact :
        Option StoreError
        → Option StoreError
        → ℕ
        → Text
        → Text
        → (body : Body) → WritesOnly body
        → Call
    set_auto_fund : Text → Bool → Call

  unfoldable pub step : Call → Repository D → Repository D
  step (transact early late now fresh user body _) r =
      (with_locked_portfolio early late now fresh user body r).1
  step (set_auto_fund user enabled) r = (set_auto_fund_purchases user enabled r).1

  unfoldable pub run : List Call → Repository D → Repository D
  run [] r = r
  run (c ∷ cs) r = run cs (step c r)

  abbrev pub IsLedgered : Repository D → Type 0
  IsLedgered r =
      (id : Text) (agg : Aggregate D)
      → lookup id r.aggregates ≡ some agg
      → IsSound num agg.cash agg.activities

  empty-IsSound : IsSound num [] []
  unfolding lookup
  empty-IsSound = record { funded = λ c b h. cc; distinct = refl }

  insert-IsLedgered :
      (r r' : Repository D) (id : Text) (agg : Aggregate D)
      → r'.aggregates ≡ insert id agg r.aggregates
      → IsSound num agg.cash agg.activities
      → IsLedgered r
      → IsLedgered r'
  insert-IsLedgered r r' id agg e s l j other h = elim (Bool-cases (text_eq id j)) [
    | inl same ↦
        let is : other ≡ agg = ground (arith, lookup-insert id j agg r.aggregates) in rw is s
    | inr differ ↦ l j other (ground (arith, lookup-insert id j agg r.aggregates))
  ]

  aggregate_for-IsLedgered :
      (now : ℕ) (fresh user : Text) (r : Repository D)
      → IsLedgered r
      → IsLedgered (aggregate_for now fresh user r).1
  unfolding aggregate_for
  aggregate_for-IsLedgered now fresh user r l = elim (Option-cases (lookup user r.user_portfolio)) [
    | inl k ↦
        insert-IsLedgered r (aggregate_for now fresh user r).1 fresh
          (new_aggregate (default_portfolio now fresh user)) (ground arith) empty-IsSound l
    | inr (id, k) ↦ rw (k, aggregate_for) l
  ]

  empty-IsLedgered : IsLedgered new_in_memory_repository
  unfolding lookup
  empty-IsLedgered id agg h = cc

  set_auto_fund-IsLedgered :
      (user : Text) (enabled : Bool) (r : Repository D)
      → IsLedgered r
      → IsLedgered (set_auto_fund_purchases user enabled r).1
  unfolding set_auto_fund_purchases
  set_auto_fund-IsLedgered user enabled r l = elim (Option-cases (lookup user r.user_portfolio)) [
    | inl k ↦ rw (k, set_auto_fund_purchases) l
    | inr (id, k) ↦ elim (Option-cases (lookup id r.aggregates)) [
      | inl m ↦ rw (k, m, set_auto_fund_purchases) l
      | inr (agg, m) ↦
          insert-IsLedgered r (set_auto_fund_purchases user enabled r).1 id
            (record agg { portfolio = record agg.portfolio { auto_fund_purchases = enabled } })
            (ground arith) (l id agg m) l
    ]
  ]

  step-IsLedgered : (c : Call) (r : Repository D) → IsLedgered r → IsLedgered (step c r)
  unfolding step begin committed
  step-IsLedgered (transact early late now fresh user body only) r l =
      let r' = (aggregate_for now fresh user r).1 in
      let id = (aggregate_for now fresh user r).0 in
      let out = (with_locked_portfolio early late now fresh user body r).1 in
      let l' = aggregate_for-IsLedgered now fresh user r l in
      elim (transaction-aggregates early late now fresh user body r) [
        | inl (inl e) ↦ subst IsLedgered (sym e) l
        | inl (inr e) ↦ subst IsLedgered (sym e) l'
        | inr (agg, _, t, found, done, e, _, _) ↦
            let s =
              Writes-IsSound num r'.faults (begin agg) t (only r' (begin agg) t done)
                (l' id agg found) in
            insert-IsLedgered r' out id (committed t agg) e s l'
      ]
  step-IsLedgered (set_auto_fund user enabled) r l = set_auto_fund-IsLedgered user enabled r l

  run-IsLedgered : (cs : List Call) (r : Repository D) → IsLedgered r → IsLedgered (run cs r)
  unfolding run
  run-IsLedgered [] r l = l
  run-IsLedgered (c ∷ cs) r l = run-IsLedgered cs (step c r) (step-IsLedgered c r l)

  -- After any transactions from the empty store, whose bodies write by the methods of the
  -- transaction, be they committed or not, no portfolio has a negative cash balance and none has two
  -- activities with the same request id other than the empty one.
  pub ledger-IsSound :
      (cs : List Call) (id : Text) (agg : Aggregate D)
      → lookup id (run cs new_in_memory_repository).aggregates ≡ some agg
      → IsSound num agg.cash agg.activities
  ledger-IsSound cs = run-IsLedgered cs new_in_memory_repository empty-IsLedgered
