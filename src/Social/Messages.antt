-- ===== src/Social/Messages.antt =====
-- social/memory_repository.go: conversations, messages and read positions.
mod Conversations
mod Posting
mod Reading
unfoldable pub use Conversations.*
unfoldable pub use Posting.*
unfoldable pub use Reading.*
