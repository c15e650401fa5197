-- ===== src/Queue/Drain.antt =====
-- packages/queue/src/drain.ts: the worker's consumer. Its callbacks run one at a time; a flush lets
-- others run while it waits for the database, so it is a step that starts and a step that ends. The
-- channel (amqplib) is seen by the deliveries that are unsettled, acknowledged and dead-lettered.
pub mod Retry
pub mod Settled
pub mod Accounted
use sd_flash_sale.Prelude.{
  ℕ, suc, ◌+◌, ◌-◌, Bool, true, false, ◌&&◌, ◌||◌, not, List, [], ◌∷◌, ◌++◌, Option, none, some,
  length, select, any, ltb, leb, ◌==◌, if◌then◌else◌, is_some,
}
use sd_flash_sale.Queue.Messages.{PurchaseWriteMessage}

-- `content` is what `JSON.parse` makes of the body, if it does not throw.
pub record Delivery : Type 0 where
  pub tag : ℕ
  pub content : Option PurchaseWriteMessage

pub record Channel : Type 0 where
  pub next_tag : ℕ
  pub outstanding : List Delivery
  pub acked : List Delivery
  pub dead : List Delivery

-- `pending`, `flushTimer !== undefined`, `stopped`; of `flushing` how many flushes wait in the chain,
-- the batch of the one that is waiting for the database, and whether the chain was rejected.
pub record Drain : Type 0 where
  pub batch_size : ℕ
  pub pending : List Delivery
  pub flush_timer : Bool
  pub stopped : Bool
  pub chained : ℕ
  pub in_flight : List Delivery
  pub rejected : Bool
  pub channel : Channel

abbrev pub is_empty : List Delivery → Bool
is_empty [] = true
is_empty (d ∷ ds) = false

-- `channel.ack(msg, true)`: every unsettled delivery up to this tag
unfoldable pub ack_up_to : ℕ → Channel → Channel
ack_up_to tag ch = record ch {
  outstanding = select (λ d. ltb tag d.tag) ch.outstanding;
  acked = ch.acked ++ select (λ d. leb d.tag tag) ch.outstanding;
}

-- `channel.nack(msg, false, false)`: this delivery goes to the dead-letter queue
unfoldable pub nack : Delivery → Channel → Channel
nack d ch = record ch {
  outstanding = select (λ e. not (e.tag == d.tag)) ch.outstanding;
  dead = ch.dead ++ select (λ e. e.tag == d.tag) ch.outstanding;
}

unfoldable pub nack_all : List Delivery → Channel → Channel
nack_all [] ch = ch
nack_all (d ∷ ds) ch = nack_all ds (nack d ch)

-- `batch[batch.length - 1]`
abbrev pub last_tag : Delivery → List Delivery → ℕ
last_tag d [] = d.tag
last_tag d (e ∷ es) = last_tag e es

unfoldable pub schedule_flush : Drain → Drain
schedule_flush s = record s { flush_timer = true }

-- `clearTimeout`, and the next link of the chain
unfoldable pub chain_flush : Drain → Drain
chain_flush s = record s { flush_timer = false; chained = s.chained + 1 }

-- The consumer's callback, on a delivery of the broker, which numbers it
unfoldable pub on_message : Option PurchaseWriteMessage → Drain → Drain
unfolding schedule_flush chain_flush
on_message content s =
    let d : Delivery = record { tag = s.channel.next_tag; content = content } in
    let ch = record (s.channel) {
      next_tag = s.channel.next_tag + 1;
      outstanding = s.channel.outstanding ++ d ∷ [];
    } in
    let t = record s { channel = ch } in
    let u = record t { pending = s.pending ++ d ∷ [] } in
    if s.stopped
    then t
    else if leb s.batch_size (length u.pending)
    then chain_flush u
    else schedule_flush u

-- The timer's callback
unfoldable pub on_timer : Drain → Drain
unfolding chain_flush
on_timer s = if s.flush_timer then chain_flush s else s

-- The chain starts its next flush when the one before has ended. A body that is no JSON throws before
-- the first attempt, and a rejected chain runs no further flush.
unfoldable pub start_flush : Drain → Drain
start_flush s =
    if s.rejected || not (is_empty s.in_flight) || s.chained == 0
    then s
    else if any (λ d. not (is_some d.content)) s.pending
    then record s { chained = s.chained - 1; pending = []; rejected = true }
    else record s { chained = s.chained - 1; pending = []; in_flight = s.pending }

-- How the attempts ended: one wrote the batch and acknowledged it; all threw, and the batch is
-- dead-lettered; or the channel had been closed, so that `ack` threw in each attempt that wrote the batch,
-- and the first `nack` threw too.
pub data Ended : Type 0 where
  wrote exhausted unsettled : Ended

unfoldable pub settle : Ended → List Delivery → Channel → Channel
settle ended [] ch = ch
settle wrote (d ∷ ds) ch = ack_up_to (last_tag d ds) ch
settle exhausted (d ∷ ds) ch = nack_all (d ∷ ds) ch
settle unsettled (d ∷ ds) ch = ch

-- What `nack` throws leaves the flush, and so rejects the chain.
abbrev pub rejects : Ended → List Delivery → Bool
rejects unsettled (d ∷ ds) = true
rejects _ _ = false

unfoldable pub end_flush : Ended → Drain → Drain
unfolding settle
end_flush ended s = record s {
  in_flight = [];
  rejected = s.rejected || rejects ended s.in_flight;
  channel = settle ended s.in_flight s.channel;
}

-- `stop`, up to its first `await`
unfoldable pub stop : Drain → Drain
stop s = record s { stopped = true }

-- `stop`, when `channel.cancel` has answered
unfoldable pub finish : Drain → Drain
unfolding chain_flush
finish s = if s.stopped then chain_flush s else s

pub data Event : Type 0 where
  message : Option PurchaseWriteMessage → Event
  timer start stopping cancelled : Event
  ended : Ended → Event

unfoldable pub step : Event → Drain → Drain
step (message content) s = on_message content s
step timer s = on_timer s
step start s = start_flush s
step (ended how) s = end_flush how s
step stopping s = stop s
step cancelled s = finish s

unfoldable pub run : List Event → Drain → Drain
run [] s = s
run (e ∷ es) s = run es (step e s)

-- `drainPurchaseWrites` on a fresh channel
unfoldable pub drain_purchase_writes : ℕ → Drain
drain_purchase_writes batch_size = record {
  batch_size = batch_size;
  pending = [];
  flush_timer = false;
  stopped = false;
  chained = 0;
  in_flight = [];
  rejected = false;
  channel = record { next_tag = 1; outstanding = []; acked = []; dead = [] };
}
