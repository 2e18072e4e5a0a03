-- ===== src/Digest.antt =====
-- internal/digest: the delivery cycle of a user, and the daily run.
-- The searches of a user are indexed one after another here. The program starts a goroutine for each,
-- behind the gate; interleavings of their statements are not modelled.
pub mod Runner
pub mod Daily
pub mod Overlapping
unfoldable pub use Runner.*
unfoldable pub use Daily.*
