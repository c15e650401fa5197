-- ===== src/Contract.antt =====
-- packages/shared-types/src/contract.ts: what the API answers. Instants are kept as milliseconds; their
-- ISO 8601 texts are not modelled.
use sd_flash_sale.Prelude.{ℕ, Option, Text}

pub data SalePhase : Type 0 where
  upcoming active ended sold_out : SalePhase

pub record Product : Type 0 where
  pub id : Text
  pub name : Text
  pub description : Option Text
  pub image_url : Option Text
  pub price : Text

pub record Sale : Type 0 where
  pub id : Text
  pub product : Product
  pub phase : SalePhase
  pub sale_price : Text
  pub total_stock : ℕ
  pub remaining_stock : ℕ
  pub starts_at : ℕ
  pub ends_at : ℕ
  pub server_time : ℕ

pub data PurchaseOutcome : Type 0 where
  success already_purchased sold_out sale_not_active : PurchaseOutcome

pub record PurchaseRecord : Type 0 where
  pub id : Text
  pub sale_id : Text
  pub product : Product
  pub email : Text
  pub price : Text
  pub purchased_at : ℕ

pub record PurchaseResult : Type 0 where
  pub status : PurchaseOutcome
  pub message : Text

pub data DependencyStatus : Type 0 where
  up down : DependencyStatus

pub record RedisReadiness : Type 0 where
  pub status : DependencyStatus
  pub latency_ms : Option ℕ
  pub error : Option Text

pub data Readiness : Type 0 where
  ready degraded : Readiness

pub record ReadinessStatus : Type 0 where
  pub status : Readiness
  pub redis : RedisReadiness

-- The values of `GetSalesParams.status`
pub data SalesFilter : Type 0 where
  active upcoming past : SalesFilter
