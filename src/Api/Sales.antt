-- ===== src/Api/Sales.antt =====
-- apps/api/src/sales: reading sales.
pub mod Utils
pub mod Service
pub mod Phases
pub mod Freshness
