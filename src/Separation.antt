-- ===== src/Separation.antt =====
-- Blocking against following, across internal/safety and internal/social as cmd/api/main.go wires
-- them: the safety service removes follows through the social service, and the social service
-- asks the safety service before a follow.
pub mod System
pub mod Preserve
pub mod Invariant
pub mod Refusal
mod Tests
