-- ===== src/Web.antt =====
-- apps/web: the hooks that fetch.
pub mod AsyncData
pub mod Purchase
pub mod ApiFetch
pub mod Duration
pub mod ValidateEmail
pub mod PurchasePanel
pub mod Session
pub mod Pages
