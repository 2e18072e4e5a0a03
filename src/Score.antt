-- ===== src/Score.antt =====
-- internal/score: the buckets of a listing, the model as counts for each bucket, and the score.
pub mod Floats
pub mod Features
pub mod Model
pub mod Retrain
pub mod Summary
unfoldable pub use Floats.*
unfoldable pub use Features.*
unfoldable pub use Model.*
unfoldable pub use Retrain.*
unfoldable pub use Summary.*
