-- ===== src/Portfolio/Laws.antt =====
-- What holds of the store's transactions and of its outbox.
pub mod Ledger
pub mod Transactions
pub mod Runs
mod Settled
pub mod Attempts
pub mod Retries
pub mod Versions
