-- ===== src/Auth/Repository.antt =====
-- backend/internal/auth/repository.go: `InMemoryUserRepository`. Each method holds the mutex from
-- its start to its end and is one function of the state.
pub mod Defs
pub mod Accounts
pub mod Tokens
pub mod Outbox
pub mod Run
