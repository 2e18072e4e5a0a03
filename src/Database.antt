-- ===== src/Database.antt =====
-- internal/db: the connection, the migrations and the seeds of the start.
pub mod Seed
pub mod Migrate
pub mod Open
