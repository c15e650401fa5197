-- ===== src/System/Balanced.antt =====
-- What Redis, the queue and the tables say of each sale, taken together.
use sd_flash_sale.Prelude.{
  ℕ, ◌+◌, ◌≤◌, ◌≡◌, Bool, true, ◌&&◌, List, some, Text, text_eq, count, All,
}
use sd_flash_sale.Redis.Keys.{normalize_email}
use sd_flash_sale.Redis.Server.{RedisServer}
use sd_flash_sale.Redis.Gate.{Gate, IsWarm}
use sd_flash_sale.Redis.Gate.Stock.{AtMostOnce}
use sd_flash_sale.Database.Schema.{SaleRow, find_sale, is_purchase_of, citext_eq}
use sd_flash_sale.Database.Server.{Postgres}
use sd_flash_sale.Database.Invariant.{IsConsistent}
use sd_flash_sale.Database.WriteBatch.{PurchaseWriteEntry}
use sd_flash_sale.Api.Sales.Service.{CacheManager}
use sd_flash_sale.Api.Purchases.Service.{World}

-- The messages of a sale in the queue, and those of one buyer.
abbrev pub waiting : Text → List PurchaseWriteEntry → ℕ
waiting id = count (λ e. text_eq e.sale_id id)

abbrev pub is_entry_of : Text → Text → PurchaseWriteEntry → Bool
is_entry_of id email e = text_eq e.sale_id id && citext_eq e.email email

module _ (r : RedisServer) (pg : Postgres) (cm : CacheManager) (is_live : Text → Bool)
    (totals : Text → ℕ) where
  -- What the queue still holds for a sale is all that Redis has given away and the tables have not.
  pub record IsOwed (id : Text) (g : Gate) (w : World r pg cm) (sale : SaleRow) : Type 0 where
    pub found : find_sale id w.tables.sales ≡ some sale
    pub total_same : sale.total_stock ≡ totals id
    pub starts_same : sale.starts_at ≡ g.starts_at
    pub ends_same : sale.ends_at ≡ g.ends_at
    pub stock_owed : g.stock + waiting id w.backlog ≡ sale.remaining_stock

  pub record IsBalanced (gates : Text → Gate) (w : World r pg cm) : Type 0 where
    pub consistent : IsConsistent w.tables
    pub warm : (id : Text) → is_live id ≡ true → IsWarm r id (gates id) w.store
    pub owed : (id : Text) → is_live id ≡ true → (sale : SaleRow) × IsOwed id (gates id) w sale
    pub once : (id : Text) → is_live id ≡ true → AtMostOnce (gates id).buyers
    pub buyers_same :
        (id email : Text)
        → is_live id ≡ true
        → count (is_purchase_of id email) w.tables.purchases
            + count (is_entry_of id email) w.backlog
          ≡ count (text_eq (normalize_email email)) (gates id).buyers
    pub timely :
        All
          (λ e.
            (is_live e.sale_id ≡ true)
            × ((gates e.sale_id).starts_at ≤ e.reserved_at)
            × (e.reserved_at ≤ (gates e.sale_id).ends_at))
          w.backlog
