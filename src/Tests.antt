-- ===== src/Tests.antt =====
-- Runs of the definitions on concrete data, at which the theorems are applied.
pub mod Samples
mod Stored
pub mod Chatted
mod Fetched
pub mod Read
pub mod Configured
pub mod Started
mod Transported
mod Interleaved
pub mod Overlapped
mod Trained
mod Validated
mod Booted
mod Watched
