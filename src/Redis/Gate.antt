-- ===== src/Redis/Gate.antt =====
-- What the gate promises: an abstract sale that answers each attempt, and the theorem that the script
-- of packages/redis/lua/reserve-purchase.lua implements it on a sale that is warmed.
pub mod Refine
pub mod Stock
use sd_flash_sale.Prelude.{
  ℕ, suc, zero, ◌+◌, ◌-◌, ◌≡◌, refl, sym, ap, ◌∙◌, Bool, true, false, ◌||◌, List, [], ◌∷◌, map,
  Option, none, some, arith, Text, codes, if◌then◌else◌, ltb, leb, contains, inl, inr, Bool-cases,
}
use sd_flash_sale.Redis.Keys.{sale_stock, sale_meta, sale_buyers, normalize_email}
use sd_flash_sale.Redis.Keys.Apart.{stock-ne-meta, stock-ne-buyers, meta-ne-buyers}
use sd_flash_sale.Redis.Server.{
  RedisServer, Scalar, Entry, number, string_entry, hash_entry, set_entry, absent_entry,
  lookup_field,
}
use sd_flash_sale.Redis.Reserve.{
  ReservationCode, reserved, sold_out, already_purchased, sale_not_active, not_warmed,
  reserve_purchase, reserve_script,
}
use mathlib.Core.Path.{fun_ext}

pub record Gate : Type 0 where
  pub cancelled : Bool
  pub starts_at : ℕ
  pub ends_at : ℕ
  pub stock : ℕ
  pub buyers : List Text

-- The window, then the buyer, then the stock.
unfoldable pub decide : Gate → Text → ℕ → ReservationCode
decide g buyer now =
    if g.cancelled
    then sale_not_active
    else if ltb now g.starts_at || leb g.ends_at now
    then sale_not_active
    else if contains g.buyers buyer
    then already_purchased
    else if leb g.stock 0
    then sold_out
    else reserved

unfoldable pub take_unit : Gate → Text → Gate
take_unit g buyer = record g { stock = g.stock - 1; buyers = buyer ∷ g.buyers }

-- Only `reserved` changes the sale.
abbrev pub settle : Gate → Text → ReservationCode → ReservationCode × Gate
settle g buyer reserved = (reserved, take_unit g buyer)
settle g buyer code = (code, g)

unfoldable pub attempt : Gate → Text → ℕ → ReservationCode × Gate
attempt g buyer now = settle g buyer (decide g buyer now)

abbrev pub buyers_entry : List Text → Entry
buyers_entry [] = absent_entry
buyers_entry (b ∷ bs) = set_entry (contains (b ∷ bs))

abbrev pub gate_fields : Gate → List (Text × Scalar)
gate_fields g =
    (codes "startsAt", number g.starts_at)
    ∷ (codes "endsAt", number g.ends_at)
    ∷ (codes "cancelled", number (if g.cancelled then 1 else 0))
    ∷ []

module _ (r : RedisServer) where
  -- The three keys of a sale hold the gate `g`.
  pub record IsWarm (id : Text) (g : Gate) (s : r.Store) : Type 0 where
    pub stock_key : r.read s (sale_stock id) ≡ string_entry (number g.stock)
    pub meta_key : r.read s (sale_meta id) ≡ hash_entry (gate_fields g)
    pub buyers_key : r.read s (sale_buyers id) ≡ buyers_entry g.buyers
