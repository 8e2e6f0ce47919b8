-- ===== src/Startup.antt =====
-- What a pod does before it serves: the lock, the migrations and the indexes of app/db and
-- app/migrations.
pub mod Lock
pub mod Migrations
pub mod Indexes
mod Tests
