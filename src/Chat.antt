-- ===== src/Chat.antt =====
-- internal/chat: Telegram updates become ratings, searches and replies.
pub mod Updates
pub mod Commands
pub mod Onboarding
pub mod Ratings
pub mod Search
pub mod Messages
pub mod Poller
unfoldable pub use Updates.*
unfoldable pub use Onboarding.*
unfoldable pub use Ratings.*
unfoldable pub use Search.*
unfoldable pub use Messages.*
unfoldable pub use Poller.*
