-- ===== src/External.antt =====
-- What the program uses and does not implement: floating point arithmetic, MongoDB and Redis.
-- Each is an interface of operations and documented laws, with an instance that meets it.
pub mod Float
pub mod Fixed
pub mod Mongo
pub mod Memory
pub mod Upsert
pub mod Redis
pub mod Json
pub mod Find
pub mod Docs
pub mod Indexes
pub mod Rows
