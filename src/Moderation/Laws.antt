-- ===== src/Moderation/Laws.antt =====
-- What holds of reports and notifications.
pub mod Pending
pub mod Resolution
pub mod Decisions
pub mod Notices
pub mod Reports
