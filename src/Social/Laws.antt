-- ===== src/Social/Laws.antt =====
-- What holds of the stores of social/memory_repository.go.
pub mod Friendship
pub mod Conversing
pub mod Moderated
pub mod Unread
pub mod Deletion
pub mod Sending
