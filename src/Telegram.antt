-- ===== src/Telegram.antt =====
-- internal/telegram: the card's caption, the Bot API envelope and the sending of a listing.
pub mod Utf16
pub mod Caption
pub mod Post
pub mod Response
pub mod Requests
unfoldable pub use Utf16.*
unfoldable pub use Caption.*
unfoldable pub use Post.*
unfoldable pub use Requests.*
