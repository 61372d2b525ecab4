-- ===== src/Portfolio/Defs.antt =====
-- portfolio/model.go, store.go, memory_store.go, repository.go: what the store keeps. A `D` is a
-- number of the decimal library or a `float64`, which the store only carries; the values of an
-- activity's metadata are texts.
use finance_app.Base.{ℕ, Bool, Option, none, List, []}
use finance_app.Base.Text.{Text, codes}
use finance_app.Base.Assoc.{Map}
use finance_app.Performance.{Decimals, State, PerformanceError}

pub data StoreError : Type 0 where
  insufficient_cash : StoreError
  duplicate_activity : StoreError
  position_not_found : StoreError
  portfolio_not_found : StoreError
  outbox_event_not_dead_lettered : StoreError
  -- errors of the package performance, of the context, of an injected fault, and of a caller
  performance : PerformanceError → StoreError
  cancelled : StoreError
  fault : Text → StoreError
  refused : Text → StoreError

-- What is used of the decimal library here: `Decimals`, and `Sign() < 0`.
pub record Numbers (D : Type 0) : Type 0 where
  pub decimals : Decimals D
  pub is_negative : D → Bool

abbrev pub position_status_open : Text
position_status_open = codes "open"

pub record CashBalance (D : Type 0) : Type 0 where
  pub portfolio_id : Text
  pub currency : Text
  pub amount : D
  pub created_at : ℕ
  pub updated_at : ℕ

pub record Activity (D : Type 0) : Type 0 where
  pub id : Text
  pub request_id : Text
  pub portfolio_id : Text
  pub user_id : Text
  pub activity_type : Text
  pub symbol : Text
  pub instrument_id : Text
  pub asset_type : Text
  pub currency : Text
  pub quantity : Option D
  pub unit_price : Option D
  pub gross_amount : D
  pub cost_basis_allocated : Option D
  pub realized_gain_loss_base : Option D
  pub realized_gain_loss_percentage : Option D
  pub occurred_at : ℕ
  pub portfolio_version : ℕ
  pub metadata : Map Text
  pub created_at : ℕ
  pub origin : Text
  pub status : Text
  pub group_id : Text
  pub position_episode_id : Text
  pub fee_amount : D
  pub net_amount : D

pub record Portfolio : Type 0 where
  pub id : Text
  pub user_id : Text
  pub name : Text
  pub currency : Text
  pub version : ℕ
  pub auto_fund_purchases : Bool
  pub created_at : ℕ
  pub updated_at : ℕ

pub record Position (D : Type 0) : Type 0 where
  pub id : Text
  pub user_id : Text
  pub portfolio_id : Text
  pub symbol : Text
  pub instrument_id : Text
  pub asset_type : Text
  pub quantity : D
  pub average_buy_price : D
  pub currency : Text
  pub status : Text
  pub closed_at : Option ℕ
  pub close_price : Option D
  pub close_currency : Text
  pub realized_gain_loss_base : D
  pub realized_gain_loss_percentage : D
  pub created_at : ℕ
  pub updated_at : ℕ

pub record OutboxEvent (D : Type 0) : Type 0 where
  pub id : Text
  pub event_type : Text
  pub aggregate_type : Text
  pub aggregate_id : Text
  pub aggregate_version : ℕ
  pub user_id : Text
  pub ranked_index : D
  pub ranking_status : Text
  pub tracking_started_at : ℕ
  pub valuation_as_of : ℕ
  pub data_quality_status : Text
  pub created_at : ℕ
  pub processed_at : Option ℕ
  pub attempt_count : ℕ
  pub last_error : Text
  pub dead_lettered_at : Option ℕ
  pub instrument_id : Text
  pub display_symbol_at_event_time : Text
  pub provider_reference_at_event_time : Text

pub record MutationAudit (D : Type 0) : Type 0 where
  pub id : Text
  pub request_id : Text
  pub portfolio_id : Text
  pub user_id : Text
  pub mutation_type : Text
  pub request_fingerprint : Text
  pub portfolio_version_before : ℕ
  pub portfolio_version_after : ℕ
  pub performance_version_before : ℕ
  pub performance_version_after : ℕ
  pub ranked_index_before : D
  pub ranked_index_after : D
  pub occurred_at : ℕ
  pub result_position_id : Text

-- `Faults`: the errors that tests inject.
pub record Faults : Type 0 where
  pub create_position : Option StoreError
  pub update_position : Option StoreError
  pub delete_position : Option StoreError
  pub replace_positions : Option StoreError
  pub insert_ranked_state : Option StoreError
  pub update_ranked_state : Option StoreError
  pub append_outbox : Option StoreError
  pub record_audit : Option StoreError
  pub set_portfolio_version : Option StoreError
  pub commit : Option StoreError
  pub put_cash : Option StoreError
  pub record_activity : Option StoreError

-- `aggregateState`: what is committed of one portfolio.
pub record Aggregate (D : Type 0) : Type 0 where
  pub portfolio : Portfolio
  pub positions : Map (Position D)
  pub order : List Text
  pub ranked : Option (State D)
  pub cash : Map (CashBalance D)
  pub activities : List (Activity D)

-- `memoryTx`: what is staged.
pub record Tx (D : Type 0) : Type 0 where
  pub portfolio : Portfolio
  pub positions : Map (Position D)
  pub order : List Text
  pub loaded : List (Position D)
  pub cash : Map (CashBalance D)
  pub activities : List (Activity D)
  pub ranked : Option (State D)
  pub ranked_dirty : Bool
  pub new_version : Option ℕ
  pub outbox : List (OutboxEvent D)
  pub audits : List (MutationAudit D)

-- `InMemoryRepository`, but for the locks, the archive and the identity reconciliation.
pub record Repository (D : Type 0) : Type 0 where
  pub aggregates : Map (Aggregate D)
  pub user_portfolio : Map Text
  pub outbox : List (OutboxEvent D)
  pub claimed : Map Bool
  pub next_attempt : Map ℕ
  pub audits : Map (MutationAudit D)
  pub audit_log : List (MutationAudit D)
  pub faults : Faults

abbrev pub no_faults : Faults
no_faults = record {
  create_position = none;
  update_position = none;
  delete_position = none;
  replace_positions = none;
  insert_ranked_state = none;
  update_ranked_state = none;
  append_outbox = none;
  record_audit = none;
  set_portfolio_version = none;
  commit = none;
  put_cash = none;
  record_activity = none;
}

abbrev pub new_in_memory_repository : {D : Type 0} → Repository D
new_in_memory_repository = record {
  aggregates = [];
  user_portfolio = [];
  outbox = [];
  claimed = [];
  next_attempt = [];
  audits = [];
  audit_log = [];
  faults = no_faults;
}
