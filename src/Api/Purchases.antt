-- ===== src/Api/Purchases.antt =====
-- apps/api/src/purchases: the purchase attempt.
pub mod Write
pub mod Service
pub mod Orders
