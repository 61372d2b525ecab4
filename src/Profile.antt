-- ===== src/Profile.antt =====
-- internal/profile: public handles (validation.go) and the profile lookups that the other
-- packages are given.
mod Defs
pub mod Handle
pub mod HandleLaws
mod Tests
unfoldable pub use Defs.*
