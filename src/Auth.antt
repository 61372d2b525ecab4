-- ===== src/Auth.antt =====
-- backend/internal/auth: accounts, sessions, one-time tokens and the email outbox.
pub mod Defs
pub mod Repository
pub mod Service
pub mod Middleware
pub mod Laws
mod Sample
mod Tests
