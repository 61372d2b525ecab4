-- ===== src/Moderation.antt =====
-- Reports, their resolution and notifications: internal/moderation.
mod Defs
pub mod Category
pub mod Status
pub mod Action
pub mod Store
pub mod Inbox
pub mod Methods
pub mod Resolving
pub mod Run
pub mod Laws
mod Tests
pub use Defs.*
