-- ===== src/Performance.antt =====
-- internal/performance: the chain-linked ranked index of a portfolio (calculator.go, model.go).
mod Defs
pub mod Calculator
pub mod Neutral
pub mod Chain
pub mod Valid
mod Tests
unfoldable pub use Defs.*
