-- ===== src/Portfolio/Store.antt =====
-- portfolio/memory_store.go and repository.go: the transaction on a locked portfolio, and the reads
-- and the preference that go past it. The lock of a portfolio makes its transactions exclude one
-- another; `set_auto_fund_purchases` takes only the mutex of the store, so it may come between the
-- snapshot of a transaction and its commit.
use finance_app.Base.{ℕ, Bool, true, false, Option, none, some, List, [], ◌∷◌, ◌++◌, if◌then◌else◌}
use finance_app.Base.Text.{Text, codes, is_empty}
use finance_app.Base.Assoc.{Map, lookup, insert}
use finance_app.Base.Result.{Result, ok, err}
use finance_app.Performance.{State, PerformanceError}
use finance_app.Portfolio.Defs.{
  StoreError, Portfolio, Position, MutationAudit, Aggregate, Tx, Repository,
}

abbrev pub default_portfolio_name : Text
default_portfolio_name = codes "Default Portfolio"

abbrev pub default_portfolio : ℕ → Text → Text → Portfolio
default_portfolio now id user = record {
  id = id;
  user_id = user;
  name = default_portfolio_name;
  currency = codes "USD";
  version = 1;
  auto_fund_purchases = true;
  created_at = now;
  updated_at = now;
}

abbrev pub audit_key : Text → Text → Text
audit_key portfolio request = portfolio ++ (codes "|" ++ request)

module _ {D : Type 0} where
  -- The copies in insertion order, of the ids that have a position.
  unfoldable pub in_order : List Text → Map (Position D) → List (Position D)
  in_order [] ps = []
  in_order (id ∷ ids) ps =
      let rest = in_order ids ps in elim (lookup id ps) [ none ↦ rest | some p ↦ p ∷ rest ]

  abbrev pub new_aggregate : Portfolio → Aggregate D
  new_aggregate pf = record {
    portfolio = pf;
    positions = [];
    order = [];
    ranked = none;
    cash = [];
    activities = [];
  }

  -- The id of the user's portfolio, which is created under a new id if there is none.
  unfoldable pub aggregate_for : ℕ → Text → Text → Repository D → Text × Repository D
  aggregate_for now fresh user r = elim (lookup user r.user_portfolio) [
    | some id ↦ (id, r)
    | none ↦ (
      fresh,
      record r {
        aggregates = insert fresh (new_aggregate (default_portfolio now fresh user)) r.aggregates;
        user_portfolio = insert user fresh r.user_portfolio;
      },
    )
  ]

  -- The snapshot that a transaction starts from.
  unfoldable pub begin : Aggregate D → Tx D
  begin agg = record {
    portfolio = agg.portfolio;
    positions = agg.positions;
    order = agg.order;
    loaded = in_order agg.order agg.positions;
    cash = agg.cash;
    activities = agg.activities;
    ranked = agg.ranked;
    ranked_dirty = false;
    new_version = none;
    outbox = [];
    audits = [];
  }

  -- The loop over the staged audits.
  unfoldable pub publish_audits :
      List (MutationAudit D) → Map (MutationAudit D) → Map (MutationAudit D)
  publish_audits [] m = m
  publish_audits (a ∷ rest) m =
      publish_audits rest
        (if is_empty a.request_id then m else insert (audit_key a.portfolio_id a.request_id) a m)

  -- What a commit writes to the aggregate.
  unfoldable pub committed : Tx D → Aggregate D → Aggregate D
  committed t agg = record {
    portfolio = elim t.new_version [
      | none ↦ agg.portfolio
      | some n ↦ record t.portfolio { version = n }
    ];
    positions = t.positions;
    order = t.order;
    ranked = if t.ranked_dirty then t.ranked else agg.ranked;
    cash = t.cash;
    activities = t.activities;
  }

  -- `id` is that of the aggregate `t.base`.
  unfoldable pub commit : Text → Tx D → Repository D → Result StoreError (Unit {0}) × Repository D
  unfolding committed
  commit id t r = elim r.faults.commit [
    | some e ↦ (err e, r)
    | none ↦ (
      ok tt,
      record r {
        aggregates = elim (lookup id r.aggregates) [
          | none ↦ r.aggregates
          | some agg ↦ insert id (committed t agg) r.aggregates
        ];
        outbox = r.outbox ++ t.outbox;
        audits = publish_audits t.audits r.audits;
        audit_log = r.audit_log ++ t.audits;
      },
    )
  ]

  -- `early` and `late` are what `ctx.Err()` answers before and after the lock is taken; the body
  -- reads the store by `find_audit` only.
  unfoldable pub with_locked_portfolio :
      {R : Type 0}
      → Option StoreError
      → Option StoreError
      → ℕ
      → Text
      → Text
      → (Repository D → Tx D → Result StoreError (R × Tx D))
      → Repository D
      → Result StoreError R × Repository D
  with_locked_portfolio (some e) late now fresh user body r = (err e, r)
  with_locked_portfolio none (some e) now fresh user body r =
      (err e, (aggregate_for now fresh user r).1)
  with_locked_portfolio none none now fresh user body r =
      let (id, r') = aggregate_for now fresh user r in
      elim (lookup id r'.aggregates) [
        | none ↦ (err StoreError.portfolio_not_found, r')
        | some agg ↦ elim (body r' (begin agg)) [
          | err e ↦ (err e, r')
          | ok (x, t) ↦
              let (done, r'') = commit id t r' in (elim done [ err e ↦ err e | ok _ ↦ ok x ], r'')
        ]
      ]

  -- `memoryTx.FindAuditByRequestID`.
  unfoldable pub find_audit : Text → Text → Repository D → Option (MutationAudit D)
  find_audit portfolio request r = lookup (audit_key portfolio request) r.audits

  unfoldable pub find_audit_by_request_id : Text → Text → Repository D → Option (MutationAudit D)
  unfolding find_audit
  find_audit_by_request_id user request r = elim (lookup user r.user_portfolio) [
    | none ↦ none
    | some id ↦ find_audit id request r
  ]

  unfoldable pub get_portfolio_by_user : Text → Repository D → Result StoreError Portfolio
  get_portfolio_by_user user r = elim (lookup user r.user_portfolio) [
    | none ↦ err StoreError.portfolio_not_found
    | some id ↦ elim (lookup id r.aggregates) [
      | none ↦ err StoreError.portfolio_not_found
      | some agg ↦ ok agg.portfolio
    ]
  ]

  unfoldable pub set_auto_fund_purchases :
      Text → Bool → Repository D → Result StoreError (Unit {0}) × Repository D
  set_auto_fund_purchases user enabled r = elim (lookup user r.user_portfolio) [
    | none ↦ (err StoreError.portfolio_not_found, r)
    | some id ↦ elim (lookup id r.aggregates) [
      | none ↦ (err StoreError.portfolio_not_found, r)
      | some agg ↦ (
        ok tt,
        record r {
          aggregates =
              insert id
                (record agg { portfolio = record agg.portfolio { auto_fund_purchases = enabled } })
                r.aggregates;
        },
      )
    ]
  ]

  unfoldable pub list_positions_by_user : Text → Repository D → List (Position D)
  unfolding in_order
  list_positions_by_user user r = elim (lookup user r.user_portfolio) [
    | none ↦ []
    | some id ↦ elim (lookup id r.aggregates) [
      | none ↦ []
      | some agg ↦ in_order agg.order agg.positions
    ]
  ]

  unfoldable pub get_by_portfolio : Text → Repository D → Result PerformanceError (State D)
  get_by_portfolio id r = elim (lookup id r.aggregates) [
    | none ↦ err PerformanceError.state_not_found
    | some agg ↦ elim agg.ranked [ none ↦ err PerformanceError.state_not_found | some st ↦ ok st ]
  ]
