-- ===== src/Api/Purchases/Service.antt =====
-- apps/api/src/purchases/purchases.service.ts, with purchases-reserve.service.ts and
-- purchases-queue.service.ts, through which it meets Redis and the broker.
pub mod Evidence
pub mod FastPath
use sd_flash_sale.Prelude.{
  ℕ, Bool, true, false, List, [], ◌∷◌, map, Option, none, some, Text, if◌then◌else◌,
}
use sd_flash_sale.Prelude.Result.{Result, ok, throws}
use sd_flash_sale.Contract.{PurchaseResult}
use sd_flash_sale.Redis.Server.{RedisServer}
use sd_flash_sale.Redis.Reserve.{
  ReservationCode, reserved, sold_out, already_purchased, sale_not_active, not_warmed,
  reserve_purchase,
}
use sd_flash_sale.Database.Schema.{Tables}
use sd_flash_sale.Database.Server.{Postgres, Thrown, CommitFault}
use sd_flash_sale.Queue.Messages.{
  PurchaseWriteMessage, SendAnswer, Published, resolves, rejects, never_settles,
  publish_purchase_write,
}
use sd_flash_sale.Api.Sales.Utils.{SaleRow, is_sale_open}
use sd_flash_sale.Api.Sales.Service.{CacheManager, find_row_by_id}
use sd_flash_sale.Api.Purchases.Write.{
  success_result, already_purchased_result, sold_out_result, sale_not_active_result, write_purchase,
}

-- How a request finds Redis: the client is not ready; the command is answered; it fails before the
-- script runs; or the script runs and its reply is lost.
pub data RedisLink : Type 0 where
  not_ready answers fails loses_reply : RedisLink

-- What one request meets: Redis, the broker's channel (null while it is down) with its answer, what
-- becomes of COMMIT, and the readings of the clocks, in their order.
pub record Conditions : Type 0 where
  pub redis : RedisLink
  pub channel : Option SendAnswer
  pub commit : Option CommitFault
  pub now : ℕ
  pub looked_up_at : ℕ
  pub checked_at : ℕ
  pub written_at : ℕ

pub data PurchaseError : Type 0 where
  sale_not_found : PurchaseError
  -- No error, but a promise that is never settled: the request gets no answer.
  unsettled : PurchaseError
  rethrown : Thrown → PurchaseError

-- `true` if the publishing resolves, `false` if it throws, none if it is never settled
abbrev pub is_queued : Published → Option Bool
is_queued resolves = some true
is_queued rejects = some false
is_queued never_settles = none

-- `PurchaseQueueService.publish`
unfoldable pub publish :
    Option SendAnswer
    → PurchaseWriteMessage
    → List PurchaseWriteMessage
    → Option Bool × List PurchaseWriteMessage
unfolding publish_purchase_write
publish none message backlog = (some false, backlog)
publish (some answer) message backlog =
    let (published, backlog') = publish_purchase_write answer message backlog in
    (is_queued published, backlog')

module _ (r : RedisServer) (pg : Postgres) (cm : CacheManager) where
  -- What the processes share.
  pub record World : Type 0 where
    pub store : r.Store
    pub tables : Tables
    pub backlog : List PurchaseWriteMessage
    pub cache : cm.Cache

  -- `PurchaseReserveService.reserve`
  unfoldable pub reserve : RedisLink → Text → Text → ℕ → r.Store → Option ReservationCode × r.Store
  reserve not_ready sale_id email now s = (none, s)
  reserve fails sale_id email now s = (none, s)
  reserve answers sale_id email now s =
      let (code, s') = reserve_purchase r sale_id email now s in (some code, s')
  reserve loses_reply sale_id email now s = (none, (reserve_purchase r sale_id email now s).1)

  abbrev pub Reply : Type 0
  Reply = Result PurchaseError PurchaseResult × World

  -- `this.writePurchase(saleId, email)`
  unfoldable pub write_through : Conditions → Text → Text → World → Reply
  write_through c sale_id email w =
      let (answer, t) = write_purchase pg c.commit c.written_at sale_id email w.tables in
      (
        elim answer [ ok result ↦ ok result | throws e ↦ throws (rethrown e) ],
        record w { tables = t },
      )

  unfoldable pub record_found : Conditions → Text → Text → Option SaleRow → World → Reply
  record_found c sale_id email none w = (throws sale_not_found, w)
  record_found c sale_id email (some sale) w =
      if is_sale_open sale c.checked_at
      then write_through c sale_id email w
      else (ok sale_not_active_result, w)

  unfoldable pub record_purchase : Conditions → Text → Text → World → Reply
  unfolding record_found
  record_purchase c sale_id email w =
      let (sale, cache) = find_row_by_id pg cm w.tables sale_id c.looked_up_at w.cache in
      record_found c sale_id email sale (record w { cache = cache })

  abbrev pub handed_over : Conditions → Text → Text → Option Bool → World → Reply
  handed_over c sale_id email none w = (throws unsettled, w)
  handed_over c sale_id email (some true) w = (ok success_result, w)
  handed_over c sale_id email (some false) w = write_through c sale_id email w

  unfoldable pub hand_over : Conditions → Text → Text → World → Reply
  hand_over c sale_id email w =
      let message : PurchaseWriteMessage = record {
        sale_id = sale_id;
        email = email;
        reserved_at = c.now;
      } in
      let (queued, backlog) = publish c.channel message w.backlog in
      handed_over c sale_id email queued (record w { backlog = backlog })

  -- The `switch`
  unfoldable pub respond : Option ReservationCode → Conditions → Text → Text → World → Reply
  unfolding hand_over record_purchase
  respond (some sale_not_active) c sale_id email w = (ok sale_not_active_result, w)
  respond (some already_purchased) c sale_id email w = (ok already_purchased_result, w)
  respond (some sold_out) c sale_id email w = (ok sold_out_result, w)
  respond (some reserved) c sale_id email w = hand_over c sale_id email w
  respond none c sale_id email w = record_purchase c sale_id email w
  respond (some not_warmed) c sale_id email w = record_purchase c sale_id email w

  unfoldable pub purchase : Conditions → Text → Text → World → Reply
  unfolding reserve respond
  purchase c sale_id email w =
      let (reservation, store) = reserve c.redis sale_id email c.now w.store in
      respond reservation c sale_id email (record w { store = store })
