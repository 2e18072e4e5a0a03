-- ===== src/Store.antt =====
-- The database and the actions on it.
pub mod Tables
pub mod Actions
pub mod Invariants
pub mod Ensures
pub mod Silent
unfoldable pub use Tables.*
unfoldable pub use Actions.*
unfoldable pub use Invariants.*
