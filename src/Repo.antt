-- ===== src/Repo.antt =====
-- internal/repo: each method of `Repo` as an action on the database.
pub mod Users
pub mod Searches
pub mod Listings
pub mod Deliveries
pub mod Ratings
pub mod Digests
pub mod Weights
pub mod Contacts
