-- ===== src/Redis/Sync.antt =====
-- packages/redis/src/sync.ts, and the loop of scripts/warm.ts over it.
pub mod Warm
pub mod Flush
use sd_flash_sale.Prelude.{
  ℕ, suc, ◌+◌, Bool, true, false, List, [], ◌∷◌, map, Option, none, some, Text, codes, text_eq,
  if◌then◌else◌, is_some, length, ◌&&◌, ltb, not, select,
}
use sd_flash_sale.Redis.Keys.{sale_stock, sale_meta, sale_buyers, normalize_email}
use sd_flash_sale.Redis.Server.{RedisServer, Scalar, number}

pub record SyncSaleInput : Type 0 where
  pub id : Text
  pub remaining_stock : ℕ
  pub starts_at : ℕ
  pub ends_at : ℕ
  pub cancelled_at : Option ℕ

-- One reply of SCAN: the next cursor, and the keys of this page.
pub record ScanPage : Type 0 where
  pub cursor : Text
  pub keys : List Text

abbrev pub meta_fields : SyncSaleInput → List (Text × Scalar)
meta_fields sale =
    (codes "startsAt", number sale.starts_at)
    ∷ (codes "endsAt", number sale.ends_at)
    ∷ (codes "cancelled", number (if is_some sale.cancelled_at then 1 else 0))
    ∷ []

module _ (r : RedisServer) where
  open r use {Store, set, hset, sadd, del, removed}

  -- `if (buyerEmails.length > 0) pipeline.sadd(...)`
  add_buyers : Text → List Text → Store → Store
  add_buyers buyers_key [] s = s
  add_buyers buyers_key (e ∷ es) s = sadd s buyers_key (map normalize_email (e ∷ es))

  -- The commands of one MULTI.
  unfoldable pub sync_sale : SyncSaleInput → List Text → Store → Store
  unfolding add_buyers
  sync_sale sale buyer_emails s =
      let stock_key = sale_stock sale.id in
      let meta_key = sale_meta sale.id in
      let buyers_key = sale_buyers sale.id in
      let cleared = del s (stock_key ∷ meta_key ∷ buyers_key ∷ []) in
      let stocked = set cleared stock_key (number sale.remaining_stock) in
      add_buyers buyers_key buyer_emails (hset stocked meta_key (meta_fields sale))

  -- `if (keys.length > 0) deleted += await redis.del(...keys)`
  del_page : List Text → ℕ × Store → ℕ × Store
  del_page [] (deleted, s) = (deleted, s)
  del_page (k ∷ ks) (deleted, s) = (deleted + removed s (k ∷ ks), del s (k ∷ ks))

  flush_from : List ScanPage → ℕ × Store → Option (ℕ × Store)
  unfolding del_page
  flush_from [] acc = none
  flush_from (page ∷ pages) acc =
      let acc' = del_page page.keys acc in
      let rest = flush_from pages acc' in
      if text_eq page.cursor (codes "0") then some acc' else rest

  -- `flushSaleKeys`, over the replies that the server gives in turn; `none` while more are due.
  unfoldable pub flush_sale_keys : List ScanPage → Store → Option (ℕ × Store)
  unfolding flush_from
  flush_sale_keys pages s = flush_from pages (0, s)
