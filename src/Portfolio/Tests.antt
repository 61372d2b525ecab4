-- ===== src/Portfolio/Tests.antt =====
-- Two users, a deposit, a request that is sent twice, and an event that fails.
use finance_app.Base.{
  ℕ, ◌+◌, ◌*◌, ◌≡◌, refl, true, false, ◌&&◌, none, some, List, [], ◌∷◌, ltb, leb, ◌==◌, ◌/◌, arith,
  all_of, find_first, inl, inr,
}
use finance_app.Base.Text.{codes, text_eq}
use finance_app.Base.Assoc
use finance_app.Base.Assoc.{lookup}
use finance_app.Base.Result.{ok, ◌>>=◌, Result-cases}
use finance_app.Portfolio.Defs.{
  StoreError, Numbers, CashBalance, Activity, OutboxEvent, Aggregate, Repository, Tx,
  new_in_memory_repository,
}
use finance_app.Portfolio.Transaction
use finance_app.Portfolio.Transaction.{Writes}
use finance_app.Portfolio.Store
use finance_app.Portfolio.Store.{with_locked_portfolio, aggregate_for, begin, default_portfolio}
use finance_app.Portfolio.Outbox
use finance_app.Portfolio.Laws.Ledger.{IsSound}
use finance_app.Portfolio.Laws.Transactions.{failed_transaction, auto_fund_lost}
use finance_app.Portfolio.Laws.Runs as Runs
use finance_app.Portfolio.Laws.Runs.{ledger-IsSound}
use finance_app.Portfolio.Laws.Attempts as Attempts
use finance_app.Portfolio.Laws.Attempts.{attempts_bounded}
use finance_app.Portfolio.Laws.Versions as Versions
use finance_app.Performance.{State, Status, CheckpointInput}
use finance_app.Performance.Calculator as Calculator
use finance_app.Portfolio.Laws.Retries.{failed_event_retried}

-- Numbers of which those from a thousand on stand for the negative ones.
abbrev num : Numbers ℕ
num = record {
  decimals = record {
    of_text = λ t. 0;
    mul = λ a b. a * b;
    div_round = λ a b n. a / b;
    round_bank = λ a n. a;
    is_zero = λ a. a == 0;
    is_positive = λ a. ltb 0 a && ltb a 1000;
    is_less = λ a b. ltb a b;
  };
  is_negative = λ a. leb 1000 a;
}

computing : Unit {0}
unfolding lookup Assoc.insert Assoc.erase text_eq Transaction.put_cash_balance
    Transaction.record_activity Transaction.set_portfolio_version Store.in_order Store.aggregate_for
    Store.begin Store.publish_audits Store.committed Store.commit Store.with_locked_portfolio
    Store.set_auto_fund_purchases Store.get_portfolio_by_user Outbox.backoff Outbox.is_claimable
    Outbox.claim_from Outbox.claim_outbox_events Outbox.write_first Outbox.mark_outbox_failed
    Runs.step Runs.run Attempts.step Attempts.run
computing = tt

abbrev usd : ℕ → CashBalance ℕ
usd amount = record {
  portfolio_id = codes "p-1";
  currency = codes "USD";
  amount = amount;
  created_at = 1;
  updated_at = 1;
}

abbrev deposit : Activity ℕ
deposit = record {
  id = codes "a-1";
  request_id = codes "r-1";
  portfolio_id = codes "p-1";
  user_id = codes "u-1";
  activity_type = codes "deposit";
  symbol = [];
  instrument_id = [];
  asset_type = [];
  currency = codes "USD";
  quantity = none;
  unit_price = none;
  gross_amount = 50;
  cost_basis_allocated = none;
  realized_gain_loss_base = none;
  realized_gain_loss_percentage = none;
  occurred_at = 1;
  portfolio_version = 2;
  metadata = [];
  created_at = 1;
  origin = [];
  status = [];
  group_id = [];
  position_episode_id = [];
  fee_amount = 0;
  net_amount = 50;
}

-- A deposit with its cash, its activity and the next version.
abbrev put_in : ℕ → Runs.Body num
put_in amount r t = do
  u ← Transaction.put_cash_balance num r.faults (usd amount) t
  v ← Transaction.record_activity num r.faults deposit u
  w ← Transaction.set_portfolio_version num r.faults 2 v
  ok (tt, w)

put_in-WritesOnly : (amount : ℕ) → Runs.WritesOnly num (put_in amount)
put_in-WritesOnly amount r t w h =
    elim (Result-cases (Transaction.put_cash_balance num r.faults (usd amount) t)) [
      | inr (e, a) ↦ absurd (ground arith)
      | inl (u, a) ↦ elim (Result-cases (Transaction.record_activity num r.faults deposit u)) [
        | inr (e, b) ↦ absurd (ground arith)
        | inl (v, b) ↦
            Writes.version (Writes.activity (Writes.cash Writes.none_yet (usd amount) a) deposit b)
              2 (ground arith)
      ]
    ]

abbrev empty : Repository ℕ
empty = new_in_memory_repository

-- The first user has deposited, and has sent the same request again.
abbrev calls : List (Runs.Call num)
calls =
    Runs.Call.transact none none 1 (codes "p-1") (codes "u-1") (put_in 50) (put_in-WritesOnly 50)
    ∷ Runs.Call.set_auto_fund (codes "u-1") false
    ∷ Runs.Call.transact none none 2 (codes "p-9") (codes "u-1") (put_in 60) (put_in-WritesOnly 60)
    ∷ []

abbrev after : Repository ℕ
after = Runs.run num calls empty

abbrev aggregate : Aggregate ℕ
aggregate = record {
  portfolio = record (default_portfolio 1 (codes "p-1") (codes "u-1")) {
    version = 2;
    auto_fund_purchases = false;
  };
  positions = [];
  order = [];
  ranked = none;
  cash = (codes "USD", usd 50) ∷ [];
  activities = deposit ∷ [];
}

ledger-IsSound_example : IsSound num aggregate.cash aggregate.activities
unfolding computing
ledger-IsSound_example = ledger-IsSound num calls (codes "p-1") aggregate refl

-- A withdrawal of more than there is, by a user without a portfolio.
failed_transaction_example :
    (with_locked_portfolio none none 3 (codes "p-2") (codes "u-2") (put_in 1000) after).1
    ≡ (aggregate_for 3 (codes "p-2") (codes "u-2") after).1
unfolding computing
failed_transaction_example =
    failed_transaction none none 3 (codes "p-2") (codes "u-2") (put_in 1000) after
      StoreError.insufficient_cash refl

-- A transaction that sets the version, with the preference changed in between.
auto_fund_lost_example :
    Store.get_portfolio_by_user
      (codes "u-1")
      (Store.commit
        (codes "p-1")
        (record (begin aggregate) { new_version = some 3 })
        (Store.set_auto_fund_purchases (codes "u-1") true after).1).1
    ≡ ok (record aggregate.portfolio { version = 3 })
unfolding computing
auto_fund_lost_example =
    auto_fund_lost num after (codes "u-1") (codes "p-1") true aggregate
      (record (begin aggregate) { new_version = some 3 }) 3 refl refl
      (Writes.version Writes.none_yet 3 refl) refl refl

abbrev event : OutboxEvent ℕ
event = record {
  id = codes "e-1";
  event_type = codes "portfolio.mutated";
  aggregate_type = codes "portfolio";
  aggregate_id = codes "p-1";
  aggregate_version = 2;
  user_id = codes "u-1";
  ranked_index = 100;
  ranking_status = codes "active";
  tracking_started_at = 1;
  valuation_as_of = 1;
  data_quality_status = codes "complete";
  created_at = 1;
  processed_at = none;
  attempt_count = 0;
  last_error = [];
  dead_lettered_at = none;
  instrument_id = [];
  display_symbol_at_event_time = [];
  provider_reference_at_event_time = [];
}

-- An event that is claimed, fails, and is claimed too early.
abbrev tries : List (Attempts.Call ℕ)
tries =
    Attempts.Call.append event
    ∷ Attempts.Call.claim 5 20
    ∷ Attempts.Call.mark_failed 6 (codes "e-1") (codes "down")
    ∷ Attempts.Call.claim 7 20
    ∷ []

news : Attempts.AllNew tries empty
unfolding computing
news = (refl, (refl, (refl, (refl, tt))))

abbrev claimed : Repository ℕ
claimed = Attempts.run (Attempts.Call.append event ∷ Attempts.Call.claim 5 20 ∷ []) empty

attempts_bounded_example :
    all_of (λ ev. leb ev.attempt_count Outbox.outbox_max_attempts) (Attempts.run tries empty).outbox
    ≡ true
attempts_bounded_example = attempts_bounded tries news

failed_event_retried_example :
    let r' = Outbox.mark_outbox_failed 9 (codes "e-1") (codes "down") claimed in
    (find_first (Outbox.has_id (codes "e-1")) r'.outbox
      ≡ some (Outbox.failed 9 (codes "down") (Outbox.attempted event)))
    × (Outbox.is_claimable
          (9 + Outbox.outbox_max_backoff)
          r'.claimed
          r'.next_attempt
          (Outbox.failed 9 (codes "down") (Outbox.attempted event))
        ≡ true)
unfolding computing
failed_event_retried_example =
    failed_event_retried 9 (9 + Outbox.outbox_max_backoff) (codes "e-1") (codes "down")
      (Outbox.attempted event) claimed refl refl refl (omega arith) (omega arith)

-- A ranked state, a deposit that doubles its portfolio, and a write-off of everything.
abbrev tracked : State ℕ
tracked = record {
  portfolio_id = codes "p-1";
  user_id = codes "u-1";
  checkpoint_index = 100;
  segment_start_value_base = some 50;
  status = Status.active;
  tracking_started_at = 1;
  segment_started_at = some 1;
  updated_at = 1;
  version = 1;
}

abbrev doubling : CheckpointInput ℕ
doubling = record {
  portfolio_id = codes "p-1";
  user_id = codes "u-1";
  value_before_base = 50;
  has_active_before = true;
  value_after_base = 100;
  has_active_after = true;
  at = 9;
}

abbrev written_off : CheckpointInput ℕ
written_off = record doubling { value_after_base = 0; has_active_after = false }

abbrev staged : Tx ℕ
staged = begin (record aggregate { ranked = some tracked })

abbrev deposited : State ℕ
deposited = record tracked {
  segment_start_value_base = some 100;
  segment_started_at = some 9;
  updated_at = 9;
  version = 2;
}
