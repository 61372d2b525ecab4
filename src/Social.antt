-- ===== src/Social.antt =====
-- internal/social: follows, friendships, conversations and messages (service.go,
-- memory_repository.go, model.go, and the error table of handler.go).
mod Defs
pub mod Follows
pub mod Messages
pub mod Methods
pub mod Messaging
pub mod Participation
pub mod Keys
pub mod Effects
pub mod Rates
pub mod Http
pub mod Laws
mod Sample
mod Tests
unfoldable pub use Defs.*
