-- ===== src/Api/Purchases/Service/Evidence.antt =====
-- `purchase` of apps/api/src/purchases/purchases.service.ts under every condition of Redis, the broker
-- and the database.
use sd_flash_sale.Prelude.{
  ◌≡◌, ◌⊎◌, refl, Bool, true, false, not, List, [], ◌∷◌, ◌++◌, Option, none, some, Text,
  if◌then◌else◌, if-cases, inl, inr, Bool-cases,
}
use sd_flash_sale.Prelude.Result.{Result, ok, throws}
use sd_flash_sale.Contract.{PurchaseResult}
use sd_flash_sale.Redis.Server.{RedisServer}
use sd_flash_sale.Redis.Reserve.{
  ReservationCode, reserved, sold_out, already_purchased, sale_not_active, not_warmed,
}
use sd_flash_sale.Database.Schema.{Tables}
use sd_flash_sale.Database.Server.{Postgres, Thrown, is_unanswered}
use sd_flash_sale.Database.Invariant.{IsConsistent}
use sd_flash_sale.Queue.Messages.{
  PurchaseWriteMessage, SendAnswer, sent, buffered, refused, arriving, publish_purchase_write,
}
use sd_flash_sale.Api.Sales.Utils.{SaleRow, is_sale_open}
use sd_flash_sale.Api.Sales.Service.{CacheManager, find_row_by_id}
use sd_flash_sale.Api.Purchases.Write.{purchase_row, write_purchase}
use sd_flash_sale.Api.Purchases.Write.Outcomes.{Recorded, is_success, write_purchase-Recorded}
use sd_flash_sale.Api.Purchases.Service.{
  Conditions, publish, World, Reply, reserve, write_through, record_found, record_purchase,
  handed_over, hand_over, respond, purchase, rethrown, PurchaseError,
}

abbrev pub takes : Option SendAnswer → Bool
takes (some (sent arrives)) = true
takes (some (buffered arrives drains)) = true
takes _ = false

-- The message goes out on a full channel that never emits `drain`.
abbrev pub hangs : Option SendAnswer → Bool
hangs (some (buffered arrives drains)) = not drains
hangs _ = false

-- The channel takes the message, but it does not reach the broker.
abbrev pub loses : Option SendAnswer → Bool
loses (some (sent arrives)) = not arrives
loses (some (buffered arrives drains)) = not arrives
loses _ = false

-- What the channel brings to the queue
abbrev pub delivered : Option SendAnswer → PurchaseWriteMessage → List PurchaseWriteMessage
delivered (some (sent arrives)) m = arriving arrives m
delivered (some (buffered arrives drains)) m = arriving arrives m
delivered _ m = []

pub takes-delivered :
    (channel : Option SendAnswer) (m : PurchaseWriteMessage)
    → takes channel ≡ true
    → loses channel ≡ false
    → delivered channel m ≡ m ∷ []
takes-delivered (some (sent true)) m t l = refl
takes-delivered (some (sent false)) m t l = absurd (cc l)
takes-delivered (some (buffered true drains)) m t l = refl
takes-delivered (some (buffered false drains)) m t l = absurd (cc l)
takes-delivered (some refused) m t l = absurd (cc t)
takes-delivered none m t l = absurd (cc t)

abbrev IfPublished :
    Option SendAnswer
    → PurchaseWriteMessage
    → List PurchaseWriteMessage
    → Option Bool × List PurchaseWriteMessage
    → Type 0
IfPublished channel m backlog (some true, backlog') =
    (takes channel ≡ true) × (backlog' ≡ backlog ++ delivered channel m)
IfPublished channel m backlog (some false, backlog') = backlog' ≡ backlog
IfPublished channel m backlog (none, backlog') =
    (hangs channel ≡ true) × (backlog' ≡ backlog ++ delivered channel m)

publish-IfPublished :
    (channel : Option SendAnswer) (m : PurchaseWriteMessage) (backlog : List PurchaseWriteMessage)
    → IfPublished channel m backlog (publish channel m backlog)
unfolding publish publish_purchase_write
publish-IfPublished none m backlog = refl
publish-IfPublished (some (sent arrives)) m backlog = (refl, refl)
publish-IfPublished (some (buffered arrives true)) m backlog = (refl, refl)
publish-IfPublished (some (buffered arrives false)) m backlog = (refl, refl)
publish-IfPublished (some refused) m backlog = refl

module _ (r : RedisServer) (pg : Postgres) (cm : CacheManager) (c : Conditions)
    (sale_id email : Text) where
  abbrev pub message : PurchaseWriteMessage
  message = record { sale_id = sale_id; email = email; reserved_at = c.now }

  -- The row is stored, and the queue is as it was.
  abbrev pub Stored : World r pg cm → World r pg cm → Type 0
  Stored w w' =
      (w'.backlog ≡ w.backlog)
      × (w'.tables.purchases ≡ purchase_row pg sale_id email c.written_at ∷ w.tables.purchases)

  -- The message went out, and the tables are as they were.
  abbrev pub Delivered : World r pg cm → World r pg cm → Type 0
  Delivered w w' = (w'.backlog ≡ w.backlog ++ delivered c.channel message) × (w'.tables ≡ w.tables)

  abbrev pub BehindSuccess : World r pg cm → World r pg cm → Type 0
  BehindSuccess w w' = ((takes c.channel ≡ true) × Delivered w w') ⊎ Stored w w'

  abbrev pub BehindRefusal : World r pg cm → World r pg cm → Type 0
  BehindRefusal w w' =
      ((w'.backlog ≡ w.backlog) × (w'.tables ≡ w.tables))
      ⊎ ((hangs c.channel ≡ true) × Delivered w w')
      ⊎ ((is_unanswered c.commit ≡ true) × Stored w w')

  pub record Evident (w : World r pg cm) (reply : Reply r pg cm) : Type 0 where
    pub consistent : IsConsistent reply.1.tables
    pub behind_success : is_success reply.0 ≡ true → BehindSuccess w reply.1
    pub behind_refusal : is_success reply.0 ≡ false → BehindRefusal w reply.1

  write_through-Evident :
      (w : World r pg cm)
      → IsConsistent w.tables
      → Evident w (write_through r pg cm c sale_id email w)
  unfolding write_through
  write_through-Evident w h =
      after (write_purchase pg c.commit c.written_at sale_id email w.tables)
        (write_purchase-Recorded pg c.commit c.written_at sale_id email w.tables h)
    where
      unless_stored :
          (t : Tables)
          → (t ≡ w.tables)
            ⊎ ((is_unanswered c.commit ≡ true)
                × (t.purchases ≡ purchase_row pg sale_id email c.written_at ∷ w.tables.purchases))
          → BehindRefusal w (record w { tables = t })
      unless_stored t (inl same) = inl (refl, same)
      unless_stored t (inr (lost, stored)) = inr (inr (lost, (refl, stored)))

      after :
          (outcome : Result Thrown PurchaseResult × Tables)
          → Recorded pg c.commit (purchase_row pg sale_id email c.written_at) w.tables outcome
          → Evident w (
            elim outcome.0 [ ok result ↦ ok result | throws e ↦ throws (rethrown e) ],
            record w { tables = outcome.1 },
          )
      after (ok result, t) h = record {
        consistent = h.0;
        behind_success = λ e. inr (refl, h.1 e);
        behind_refusal = λ e. unless_stored t (h.2 e);
      }
      after (throws x, t) h = record {
        consistent = h.0;
        behind_success = λ e. cc;
        behind_refusal = λ e. unless_stored t (h.2 refl);
      }

  refused-Evident :
      (w w' : World r pg cm) (answer : Result PurchaseError PurchaseResult)
      → is_success answer ≡ false
      → w'.tables ≡ w.tables
      → w'.backlog ≡ w.backlog
      → IsConsistent w.tables
      → Evident w (answer, w')
  refused-Evident w w' answer no_success t b h = record {
    consistent = rw t h;
    behind_success = λ e. cc;
    behind_refusal = λ e. inl (b, t);
  }

  record_found-Evident :
      (w : World r pg cm) (sale : Option SaleRow)
      → IsConsistent w.tables
      → Evident w (record_found r pg cm c sale_id email sale w)
  unfolding record_found
  record_found-Evident w none h = refused-Evident w w _ refl refl refl h
  record_found-Evident w (some sale) h = elim (Bool-cases (is_sale_open sale c.checked_at)) [
    | inl open_now ↦ rw open_now (write_through-Evident w h)
    | inr closed ↦ rw closed (refused-Evident w w _ refl refl refl h)
  ]

  -- A world that has the same tables and queue.
  Evident-over :
      (w v : World r pg cm) (reply : Reply r pg cm)
      → v.tables ≡ w.tables
      → v.backlog ≡ w.backlog
      → Evident v reply
      → Evident w reply
  Evident-over w v reply t b e = record {
    consistent = e.consistent;
    behind_success = rw (← t, ← b) e.behind_success;
    behind_refusal = rw (← t, ← b) e.behind_refusal;
  }

  hand_over-Evident :
      (w : World r pg cm) → IsConsistent w.tables → Evident w (hand_over r pg cm c sale_id email w)
  unfolding hand_over
  hand_over-Evident w h =
      after (publish c.channel message w.backlog) (publish-IfPublished c.channel message w.backlog)
    where
      after :
          (outcome : Option Bool × List PurchaseWriteMessage)
          → IfPublished c.channel message w.backlog outcome
          → Evident w
              (handed_over r pg cm c sale_id email outcome.0 (record w { backlog = outcome.1 }))
      after (some true, backlog) (taken, e) = record {
        consistent = h;
        behind_success = λ s. inl (taken, (e, refl));
        behind_refusal = λ s. cc;
      }
      after (some false, backlog) e =
          Evident-over w (record w { backlog = backlog }) _ refl e
            (write_through-Evident (record w { backlog = backlog }) h)
      after (none, backlog) (hung, e) = record {
        consistent = h;
        behind_success = λ s. cc;
        behind_refusal = λ s. inr (inl (hung, (e, refl)));
      }

  record_purchase-Evident :
      (w : World r pg cm)
      → IsConsistent w.tables
      → Evident w (record_purchase r pg cm c sale_id email w)
  unfolding record_purchase
  record_purchase-Evident w h =
      let (sale, cache) = find_row_by_id pg cm w.tables sale_id c.looked_up_at w.cache in
      Evident-over w (record w { cache = cache }) _ refl refl
        (record_found-Evident (record w { cache = cache }) sale h)

  respond-Evident :
      (reservation : Option ReservationCode) (w : World r pg cm)
      → IsConsistent w.tables
      → Evident w (respond r pg cm reservation c sale_id email w)
  unfolding respond
  respond-Evident none w h = record_purchase-Evident w h
  respond-Evident (some reserved) w h = hand_over-Evident w h
  respond-Evident (some sold_out) w h = refused-Evident w w _ refl refl refl h
  respond-Evident (some already_purchased) w h = refused-Evident w w _ refl refl refl h
  respond-Evident (some sale_not_active) w h = refused-Evident w w _ refl refl refl h
  respond-Evident (some not_warmed) w h = record_purchase-Evident w h

  purchase-Evident :
      (w : World r pg cm) → IsConsistent w.tables → Evident w (purchase r pg cm c sale_id email w)
  unfolding purchase
  purchase-Evident w h =
      let (reservation, store) = reserve r pg cm c.redis sale_id email c.now w.store in
      Evident-over w (record w { store = store }) _ refl refl
        (respond-Evident reservation (record w { store = store }) h)

  -- On consistent tables, whatever Redis, the channel, COMMIT and the clocks do: behind a success, either the
  -- channel has taken the message, which is the one addition to the queue unless the channel loses it, or the
  -- row is the one addition to the tables, and not both. Any other answer and any error leaves queue and
  -- tables as they were, but for two faults: the request that hangs for want of `drain` has sent its message,
  -- and a COMMIT whose reply was lost has stored the row. The tables stay consistent.
  pub purchase-backs_success :
      (w : World r pg cm)
      → IsConsistent w.tables
      → let (answer, w') = purchase r pg cm c sale_id email w in
        IsConsistent w'.tables
        × (if is_success answer then BehindSuccess w w' else BehindRefusal w w')
  purchase-backs_success w h =
      let e = purchase-Evident w h in
      (
        e.consistent,
        if-cases (λ (T : Type 0). T) (is_success (purchase r pg cm c sale_id email w).0)
            e.behind_success e.behind_refusal,
      )
