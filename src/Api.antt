-- ===== src/Api.antt =====
-- apps/api: the HTTP service.
pub mod PgError
pub mod Sales
pub mod Purchases
pub mod Common
pub mod Outage
