-- ===== src/Redis/WarmScript.antt =====
-- packages/redis/src/scripts/warm.ts: the sales that are open or upcoming are loaded into Redis.
pub mod Loaded
use sd_flash_sale.Prelude.{ℕ, Bool, ◌&&◌, not, List, [], ◌∷◌, map, Text, text_eq, ltb, is_some}
use sd_flash_sale.Redis.Server.{RedisServer}
use sd_flash_sale.Redis.Sync.{SyncSaleInput, sync_sale}
use sd_flash_sale.Database.Schema.{SaleRow, PurchaseRow, Tables}
use sd_flash_sale.Database.Server.{Postgres}

abbrev pub input_of : SaleRow → SyncSaleInput
input_of sale = record {
  id = sale.id;
  remaining_stock = sale.remaining_stock;
  starts_at = sale.starts_at;
  ends_at = sale.ends_at;
  cancelled_at = sale.cancelled_at;
}

-- `and(isNull(sales.cancelledAt), gt(sales.endsAt, now))`
abbrev pub is_warmed : ℕ → SaleRow → Bool
is_warmed now sale = not (is_some sale.cancelled_at) && ltb now sale.ends_at

module _ (r : RedisServer) (pg : Postgres) where
  abbrev pub buyer_emails : Tables → Text → List Text
  buyer_emails t id = map (λ p. p.email) (pg.purchases_where t (λ p. text_eq p.sale_id id))

  -- The loop over the rows
  unfoldable pub warm_sales : Tables → List SaleRow → r.Store → r.Store
  warm_sales t [] s = s
  warm_sales t (sale ∷ sales) s =
      warm_sales t sales (sync_sale r (input_of sale) (buyer_emails t sale.id) s)

  unfoldable pub warm : Tables → ℕ → r.Store → r.Store
  unfolding warm_sales
  warm t now s = warm_sales t (pg.sales_where t (is_warmed now)) s
