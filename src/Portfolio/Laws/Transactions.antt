-- ===== src/Portfolio/Laws/Transactions.antt =====
-- One transaction: what a failed one leaves, what it does to other portfolios, and what a preference
-- that is set during it becomes.
use finance_app.Base.{
  ℕ, ◌≡◌, refl, ◌∙◌, ap, ◌⊎◌, Bool, false, Option, none, some, if◌then◌else◌, arith, Option-cases,
  inl, inr, is_some,
}
use finance_app.Base.Text.{Text, text_eq, text_eq_iff}
use finance_app.Base.Assoc.{lookup, insert, lookup-insert}
use finance_app.Base.Result.{Result, ok, err, Result-cases}
use finance_app.Portfolio.Defs.{StoreError, Numbers, Aggregate, Tx, Repository}
use finance_app.Portfolio.Transaction.{Writes}
use finance_app.Portfolio.Store.{
  aggregate_for, begin, commit, committed, with_locked_portfolio, set_auto_fund_purchases,
  get_portfolio_by_user, new_aggregate, default_portfolio,
}
use finance_app.Portfolio.Laws.Ledger.{Writes-portfolio}

module _ {D : Type 0} where
  aggregate_for-other :
      (now : ℕ) (fresh user id : Text) (r : Repository D)
      → text_eq (aggregate_for now fresh user r).0 id ≡ false
      → lookup id (aggregate_for now fresh user r).1.aggregates ≡ lookup id r.aggregates
  unfolding aggregate_for
  aggregate_for-other now fresh user id r o = elim (Option-cases (lookup user r.user_portfolio)) [
    | inl k ↦ ground (
      arith,
      lookup-insert fresh id (new_aggregate (default_portfolio now fresh user)) r.aggregates,
    )
    | inr (p, k) ↦ ground arith
  ]

module _ {D R : Type 0} where
  -- A transaction that answers an error, be it the context's, the body's or the commit's, leaves all
  -- that is committed as it was, but that the user has a portfolio unless the context was over
  -- before the lock was asked for.
  pub failed_transaction :
      (early late : Option StoreError) (now : ℕ) (fresh user : Text)
      (body : Repository D → Tx D → Result StoreError (R × Tx D)) (r : Repository D)
      (e : StoreError)
      → (with_locked_portfolio early late now fresh user body r).0 ≡ err e
      → (with_locked_portfolio early late now fresh user body r).1
        ≡ (if is_some early then r else (aggregate_for now fresh user r).1)
  unfolding with_locked_portfolio commit
  failed_transaction (some e) late now fresh user body r bad h = refl
  failed_transaction none (some e) now fresh user body r bad h = refl
  failed_transaction none none now fresh user body r bad h =
      let r' = (aggregate_for now fresh user r).1 in
      elim (Option-cases (lookup (aggregate_for now fresh user r).0 r'.aggregates)) [
        | inl k ↦ ground arith
        | inr (agg, k) ↦ elim (Result-cases (body r' (begin agg))) [
          | inr (bad, m) ↦ ground arith
          | inl ((x, t), m) ↦ elim (Option-cases r'.faults.commit) [
            | inl c ↦ absurd (ground arith)
            | inr (worse, c) ↦ ground arith
          ]
        ]
      ]

  -- The cases of a transaction: nothing is committed, or the aggregate of the user is.
  pub transaction-aggregates :
      (early late : Option StoreError) (now : ℕ) (fresh user : Text)
      (body : Repository D → Tx D → Result StoreError (R × Tx D)) (r : Repository D)
      → let r' = (aggregate_for now fresh user r).1 in
        let id = (aggregate_for now fresh user r).0 in
        let out = (with_locked_portfolio early late now fresh user body r).1 in
        ((out ≡ r) ⊎ (out ≡ r'))
        ⊎ ((agg : Aggregate D) × (x : R) × (t : Tx D) × (lookup id r'.aggregates ≡ some agg)
            × (body r' (begin agg) ≡ ok (x, t))
            × (out.aggregates ≡ insert id (committed t agg) r'.aggregates)
            × (out.user_portfolio ≡ r'.user_portfolio)
            × (out.faults ≡ r'.faults))
  unfolding with_locked_portfolio commit
  transaction-aggregates (some e) late now fresh user body r = inl (inl refl)
  transaction-aggregates none (some e) now fresh user body r = inl (inr refl)
  transaction-aggregates none none now fresh user body r =
      let r' = (aggregate_for now fresh user r).1 in
      elim (Option-cases (lookup (aggregate_for now fresh user r).0 r'.aggregates)) [
        | inl k ↦ inl (inr (ground arith))
        | inr (agg, k) ↦ elim (Result-cases (body r' (begin agg))) [
          | inr (bad, m) ↦ inl (inr (ground arith))
          | inl ((x, t), m) ↦ elim (Option-cases r'.faults.commit) [
            | inr (worse, c) ↦ inl (inr (ground arith))
            | inl c ↦ inr (agg, x, t, k, m, ground arith, ground arith, ground arith)
          ]
        ]
      ]

  -- A transaction of one user, failed or not, changes no portfolio but that user's.
  transaction_isolated :
      (early late : Option StoreError) (now : ℕ) (fresh user id : Text)
      (body : Repository D → Tx D → Result StoreError (R × Tx D)) (r : Repository D)
      → text_eq (aggregate_for now fresh user r).0 id ≡ false
      → lookup id (with_locked_portfolio early late now fresh user body r).1.aggregates
        ≡ lookup id r.aggregates
  transaction_isolated early late now fresh user id body r o =
      let same = aggregate_for-other now fresh user id r o in
      let own = (aggregate_for now fresh user r).0 in
      let r' = (aggregate_for now fresh user r).1 in
      elim (transaction-aggregates early late now fresh user body r) [
        | inl (inl e) ↦ ap (λ q. lookup id q.aggregates) e
        | inl (inr e) ↦ ap (λ q. lookup id q.aggregates) e ∙ same
        | inr (agg, x, t, _, _, e, _, _) ↦
            ground (arith, same, lookup-insert own id (committed t agg) r'.aggregates)
      ]

module _ {D : Type 0} (num : Numbers D) where
  -- A preference on automatic funding that is set while a transaction of the portfolio is open is
  -- lost when the transaction commits a new version: the portfolio then has the preference of the
  -- snapshot.
  pub auto_fund_lost :
      (r : Repository D) (user id : Text) (enabled : Bool) (agg : Aggregate D) (t : Tx D) (n : ℕ)
      → lookup user r.user_portfolio ≡ some id
      → lookup id r.aggregates ≡ some agg
      → Writes num r.faults (begin agg) t
      → t.new_version ≡ some n
      → r.faults.commit ≡ none
      → get_portfolio_by_user user (commit id t (set_auto_fund_purchases user enabled r).1).1
        ≡ ok (record agg.portfolio { version = n })
  unfolding get_portfolio_by_user commit set_auto_fund_purchases committed begin
  auto_fund_lost r user id enabled agg t n u a w v c =
      let row = Writes-portfolio num r.faults (begin agg) t w in
      let changed = record agg {
        portfolio = record agg.portfolio { auto_fund_purchases = enabled };
      } in
      let m = insert id changed r.aggregates in
      ground (
        arith,
        row,
        text_eq_iff id id,
        lookup-insert id id changed r.aggregates,
        lookup-insert id id (committed t changed) m,
      )
