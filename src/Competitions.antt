-- ===== src/Competitions.antt =====
-- internal/competitions: the life of an edition (lifecycle.go) and its ranking (ranking.go).
pub mod Lifecycle
pub mod Editions
mod Ranks
pub mod Moves
pub mod History
pub mod Ranking
pub mod Rules
mod Tests
