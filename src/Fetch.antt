-- ===== src/Fetch.antt =====
-- internal/fetch: pacing, retries and the classification of failures.
pub mod Gate
pub mod Classify
pub mod Client
pub mod Backoff
pub mod Transport
pub mod Turns
unfoldable pub use Gate.*
unfoldable pub use Classify.*
unfoldable pub use Client.*
unfoldable pub use Backoff.*
unfoldable pub use Transport.*
