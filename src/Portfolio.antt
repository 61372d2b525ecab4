-- ===== src/Portfolio.antt =====
-- backend/internal/portfolio: the in-memory store of portfolios, its transactions and its outbox.
pub mod Defs
pub mod Transaction
pub mod Store
pub mod Outbox
pub mod Laws
mod Tests
