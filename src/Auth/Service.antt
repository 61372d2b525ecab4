-- ===== src/Auth/Service.antt =====
-- backend/internal/auth/service.go, jwt.go and email_outbox.go over the in-memory repository.
pub mod Defs
pub mod Registration
pub mod Login
pub mod Passwords
