-- ===== src/Api/Purchases/Service/FastPath.antt =====
-- `purchase` of apps/api/src/purchases/purchases.service.ts on a warmed sale, with Redis and the
-- broker up.
use sd_flash_sale.Prelude.{
  true, ap, ℕ, ◌≡◌, ◌≢◌, refl, List, [], ◌∷◌, ◌++◌, some, Text, if◌then◌else◌, arith, ◌∙◌,
}
use sd_flash_sale.Prelude.Result.{ok}
use sd_flash_sale.Contract.{PurchaseResult}
use sd_flash_sale.Redis.Keys.{normalize_email}
use sd_flash_sale.Redis.Server.{RedisServer}
use sd_flash_sale.Redis.Reserve.{
  ReservationCode, reserved, sold_out, already_purchased, sale_not_active, not_warmed,
  reserve_purchase,
}
use sd_flash_sale.Redis.Gate.{Gate, IsWarm, decide, attempt}
use sd_flash_sale.Redis.Gate.Refine.{reserve_purchase-refines-attempt}
use sd_flash_sale.Redis.Gate.Stock.{is_reserved, settle-code}
use sd_flash_sale.Database.Server.{Postgres}
use sd_flash_sale.Queue.Messages.{PurchaseWriteMessage, sent, publish_purchase_write}
use sd_flash_sale.Api.Sales.Service.{CacheManager}
use sd_flash_sale.Api.Purchases.Write.{
  success_result, already_purchased_result, sold_out_result, sale_not_active_result,
}
use sd_flash_sale.Api.Purchases.Service.{
  Conditions, RedisLink, answers, publish, World, reserve, hand_over, respond, purchase, Reply,
}

-- The answer that each code of the gate turns into.
abbrev pub result_of : ReservationCode → PurchaseResult
result_of reserved = success_result
result_of sold_out = sold_out_result
result_of already_purchased = already_purchased_result
result_of sale_not_active = sale_not_active_result
result_of not_warmed = sale_not_active_result

decide-ne-not_warmed : (g : Gate) (buyer : Text) (now : ℕ) → decide g buyer now ≢ not_warmed
unfolding decide
decide-ne-not_warmed g buyer now h = ground arith

pub attempt-decide :
    (g : Gate) (buyer : Text) (now : ℕ) → (attempt g buyer now).0 ≡ decide g buyer now
unfolding attempt
attempt-decide g buyer now = settle-code g buyer (decide g buyer now)

module _ (r : RedisServer) (pg : Postgres) (cm : CacheManager) (c : Conditions)
    (sale_id email : Text) where
  abbrev pub queued : ReservationCode → List PurchaseWriteMessage → List PurchaseWriteMessage
  queued code backlog =
      if is_reserved code
      then backlog ++ record { sale_id = sale_id; email = email; reserved_at = c.now } ∷ []
      else backlog

  respond-up :
      (code : ReservationCode) (w : World r pg cm)
      → code ≢ not_warmed
      → c.channel ≡ some (sent true)
      → respond r pg cm (some code) c sale_id email w
        ≡ (ok (result_of code), record w { backlog = queued code w.backlog })
  unfolding respond hand_over publish publish_purchase_write
  respond-up reserved w h up = rw (up, publish) refl
  respond-up sold_out w h up = refl
  respond-up already_purchased w h up = refl
  respond-up sale_not_active w h up = refl
  respond-up not_warmed w h up = absurd (h refl)

  reserve-up :
      (link : RedisLink) (s : r.Store)
      → link ≡ answers
      → reserve r pg cm link sale_id email c.now s ≡ (
        some (reserve_purchase r sale_id email c.now s).0,
        (reserve_purchase r sale_id email c.now s).1,
      )
  unfolding reserve
  reserve-up link s h = rw h refl

  purchase-up :
      (w : World r pg cm) (code : ReservationCode)
      → (reserve_purchase r sale_id email c.now w.store).0 ≡ code
      → code ≢ not_warmed
      → c.redis ≡ answers
      → c.channel ≡ some (sent true)
      → purchase r pg cm c sale_id email w ≡ (
        ok (result_of code),
        record w {
          store = (reserve_purchase r sale_id email c.now w.store).1;
          backlog = queued code w.backlog;
        },
      )
  unfolding purchase
  purchase-up w code e ne ready up =
      rw (reserve-up c.redis w.store ready, e)
        (respond-up code (record w { store = (reserve_purchase r sale_id email c.now w.store).1 })
          ne up)

  -- On a warmed sale, with Redis answering and the broker taking the message: the answer is the
  -- one that the sale's gate decides, the tables are not touched, the message is queued exactly
  -- for a reservation, and Redis then holds the gate's next state.
  pub purchase-fast_path :
      (g : Gate) (w : World r pg cm)
      → IsWarm r sale_id g w.store
      → c.redis ≡ answers
      → c.channel ≡ some (sent true)
      → let buyer = normalize_email email in
        let code = decide g buyer c.now in
        let (answer, w') = purchase r pg cm c sale_id email w in
        (answer ≡ ok (result_of code))
        × (w'.tables ≡ w.tables)
        × (w'.backlog ≡ queued code w.backlog)
        × IsWarm r sale_id (attempt g buyer c.now).1 w'.store
  purchase-fast_path g w warm ready up =
      let buyer = normalize_email email in
      let (code_eq, warm') =
        reserve_purchase-refines-attempt r sale_id email c.now g w.store warm in
      rw
        (purchase-up w (decide g buyer c.now) (code_eq ∙ attempt-decide g buyer c.now)
          (decide-ne-not_warmed g buyer c.now) ready up)
        (refl, refl, refl, warm')

  -- What Redis then holds is what the reservation leaves.
  pub purchase-store :
      (g : Gate) (w : World r pg cm)
      → IsWarm r sale_id g w.store
      → c.redis ≡ answers
      → c.channel ≡ some (sent true)
      → (purchase r pg cm c sale_id email w).1.store
        ≡ (reserve_purchase r sale_id email c.now w.store).1
  purchase-store g w warm ready up =
      let buyer = normalize_email email in
      let (code_eq, warm') =
        reserve_purchase-refines-attempt r sale_id email c.now g w.store warm in
      ap (λ (x : Reply r pg cm). x.1.store)
        (purchase-up w (decide g buyer c.now) (code_eq ∙ attempt-decide g buyer c.now)
          (decide-ne-not_warmed g buyer c.now) ready up)
