-- ===== src/Competitions/Rules.antt =====
-- internal/competitions/rules: who may enter a competition (schema.go, evaluate.go).
mod Defs
pub mod Evaluate
pub mod Outcome
mod Tests
unfoldable pub use Defs.*
