-- ===== src/Safety.antt =====
-- internal/safety: blocking between users and the interaction gate (service.go,
-- memory_repository.go).
mod Defs
pub mod Store
pub mod Methods
pub mod Keys
pub mod Effects
pub mod Blocking
pub mod Gate
mod Tests
unfoldable pub use Defs.*
