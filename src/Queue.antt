-- ===== src/Queue.antt =====
-- packages/queue: the purchase-writes queue.
pub mod Messages
pub mod Drain
pub mod Connection
