-- ===== src/Api/Outage.antt =====
-- apps/api/src/redis/redis.provider.ts: what the client's events do. Redis is swept when it is back after an
-- outage, for its copies of the sales have missed what was sold in the meantime.
pub mod Swept
use sd_flash_sale.Prelude.{
  ℕ, Bool, true, false, not, List, [], ◌∷◌, Option, none, some, if◌then◌else◌,
}
use sd_flash_sale.Redis.Server.{RedisServer}
use sd_flash_sale.Redis.Sync.{ScanPage, flush_sale_keys}

module _ (r : RedisServer) where
  -- A connection that is ready finds what the store holds then, and the replies that a scan of it gets.
  pub data ClientEvent : Type 0 where
    errs closes : ClientEvent
    readies : List ScanPage → r.Store → ClientEvent

  pub record Client : Type 0 where
    pub was_down : Bool
    pub store : r.Store

  -- A sweep that fails is only logged; what it deleted before is left out.
  abbrev pub swept : r.Store → Option (ℕ × r.Store) → r.Store
  swept s none = s
  swept s (some (deleted, t)) = t

  unfoldable pub on_ready : List ScanPage → r.Store → Client → Client
  on_ready pages s client =
      if not client.was_down
      then record client { store = s }
      else record { was_down = false; store = swept s (flush_sale_keys r pages s) }

  unfoldable pub on_event : ClientEvent → Client → Client
  unfolding on_ready
  on_event errs client = client
  on_event closes client = record client { was_down = true }
  on_event (readies pages s) client = on_ready pages s client

  unfoldable pub observe : List ClientEvent → Client → Client
  unfolding on_event
  observe [] client = client
  observe (e ∷ es) client = observe es (on_event e client)

  -- The client as it is made
  abbrev pub redis_provider : r.Store → Client
  redis_provider s = record { was_down = false; store = s }
