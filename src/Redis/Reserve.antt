-- ===== src/Redis/Reserve.antt =====
-- packages/redis/lua/reserve-purchase.lua, and reserve-purchase.ts and client.types.ts, which call it.
use sd_flash_sale.Prelude.{
  ℕ, Bool, true, false, ◌||◌, not, [], ◌∷◌, Option, none, some, Text, codes, if◌then◌else◌, ltb,
  leb, ◌==◌,
}
use sd_flash_sale.Redis.Keys.{sale_stock, sale_meta, sale_buyers, normalize_email}
use sd_flash_sale.Redis.Server.{RedisServer, Scalar, number, other, exists_kind}

pub data ReservationCode : Type 0 where
  reserved sold_out already_purchased sale_not_active not_warmed : ReservationCode

-- `tonumber`, also of a reply that is not there
abbrev pub to_number : Option Scalar → Option ℕ
to_number (some (number n)) = some n
to_number (some (other t)) = none
to_number none = none

-- `== '1'`
abbrev pub is_one : Option Scalar → Bool
is_one (some (number n)) = n == 1
is_one _ = false

-- A time that is missing puts `now` outside too.
abbrev pub outside : Option ℕ → Option ℕ → Option ℕ → Bool
outside (some starts_at) (some ends_at) (some now) = ltb now starts_at || leb ends_at now
outside _ _ _ = true

abbrev pub no_stock : Option ℕ → Bool
no_stock (some stock) = leb stock 0
no_stock none = true

module _ (r : RedisServer) where
  open r use {Store, read, decr, sadd}

  -- The script, on KEYS[1..3] and ARGV[1..2]
  unfoldable pub reserve_script :
      Text → Text → Text → Text → Scalar → Store → ReservationCode × Store
  reserve_script stock_key meta_key buyers_key email now s =
      if not (exists_kind (read s stock_key).kind) || not (exists_kind (read s meta_key).kind)
      then (not_warmed, s)
      else if is_one ((read s meta_key).field (codes "cancelled"))
      then (sale_not_active, s)
      else if outside (to_number ((read s meta_key).field (codes "startsAt")))
          (to_number ((read s meta_key).field (codes "endsAt"))) (to_number (some now))
      then (sale_not_active, s)
      else if (read s buyers_key).member email
      then (already_purchased, s)
      else if no_stock (to_number (read s stock_key).scalar)
      then (sold_out, s)
      else (reserved, sadd (decr s stock_key) buyers_key (email ∷ []))

  -- `reservePurchase`. `String(now)` spells a number.
  unfoldable pub reserve_purchase : Text → Text → ℕ → Store → ReservationCode × Store
  unfolding reserve_script
  reserve_purchase sale_id email now s =
      reserve_script (sale_stock sale_id) (sale_meta sale_id) (sale_buyers sale_id)
        (normalize_email email) (number now) s
