-- ===== src/Redis.antt =====
-- packages/redis: the Redis side of the purchase gate.
pub mod Keys
pub mod Server
pub mod Reserve
pub mod Sync
pub mod Gate
pub mod WarmScript
