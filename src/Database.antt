-- ===== src/Database.antt =====
-- packages/database: the tables, their constraints, and the worker's batched write.
pub mod Schema
pub mod Server
pub mod WriteBatch
pub mod Invariant
pub mod Seed
pub mod Scripts
