-- ===== src/Queue/Messages.antt =====
-- packages/queue/src/constants.ts, client.types.ts and publish.ts.
use sd_flash_sale.Prelude.{ℕ, Bool, true, false, if◌then◌else◌, List, [], ◌∷◌, ◌++◌, Text, codes}
use sd_flash_sale.Database.WriteBatch.{PurchaseWriteEntry}

abbrev pub purchase_writes_queue : Text
purchase_writes_queue = codes "flash-sale.purchase-writes"

abbrev pub default_prefetch : ℕ
default_prefetch = 500

abbrev pub default_batch_size : ℕ
default_batch_size = 200

abbrev pub default_batch_window_ms : ℕ
default_batch_window_ms = 50

abbrev pub default_max_attempts : ℕ
default_max_attempts = 5

abbrev pub default_retry_backoff_ms : ℕ
default_retry_backoff_ms = 200

-- The interface has the fields of `PurchaseWriteEntry`, which the worker takes it for.
abbrev pub PurchaseWriteMessage : Type 0
PurchaseWriteMessage = PurchaseWriteEntry

-- What `sendToQueue` does: it takes the message (`true`), takes it with a full buffer (`false`), or throws. The
-- channel has no publisher confirms, so what it takes may be lost before the broker has it: the first
-- argument is whether the message arrives. After `false` the channel may go down before it emits `drain`: the
-- second argument is whether `drain` comes.
pub data SendAnswer : Type 0 where
  sent : Bool → SendAnswer
  buffered : Bool → Bool → SendAnswer
  refused : SendAnswer

-- How the promise of `publishPurchaseWrite` is settled, if it ever is
pub data Published : Type 0 where
  resolves rejects never_settles : Published

abbrev pub arriving : Bool → PurchaseWriteMessage → List PurchaseWriteMessage
arriving true message = message ∷ []
arriving false message = []

-- The messages of the queue are listed oldest first.
unfoldable pub publish_purchase_write :
    SendAnswer
    → PurchaseWriteMessage
    → List PurchaseWriteMessage
    → Published × List PurchaseWriteMessage
publish_purchase_write (sent arrives) message backlog =
    (resolves, backlog ++ arriving arrives message)
publish_purchase_write (buffered arrives drains) message backlog =
    (if drains then resolves else never_settles, backlog ++ arriving arrives message)
publish_purchase_write refused message backlog = (rejects, backlog)
