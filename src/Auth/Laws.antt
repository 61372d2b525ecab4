-- ===== src/Auth/Laws.antt =====
-- What holds of the accounts, over any calls.
mod Later
pub mod Ages
pub mod Sessions
pub mod Index
pub mod Indexes
pub mod Passwords
pub mod SingleUse
pub mod Delivery
mod Held
pub mod Leases
pub mod Signing
pub mod Apple
pub mod Registering
pub mod Verifying
