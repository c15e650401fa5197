-- ===== src/System.antt =====
-- The parts together: the API sells from Redis while the worker writes what is queued into PostgreSQL.
pub mod Balanced
pub mod Bought
pub mod Drained
pub mod Started
pub mod Faults
use sd_flash_sale.Prelude.{ℕ, true, List, [], ◌∷◌, Option, none, some, Text, take, drop}
use sd_flash_sale.Prelude.Result.{Result, ok, throws}
use sd_flash_sale.Redis.Server.{RedisServer}
use sd_flash_sale.Database.Schema.{Tables}
use sd_flash_sale.Database.Server.{Postgres, Thrown, fails}
use sd_flash_sale.Queue.Messages.{sent}
use sd_flash_sale.Api.Sales.Service.{CacheManager}
use sd_flash_sale.Api.Purchases.Service.{Conditions, answers, World, purchase}
use sd_flash_sale.Worker.{write_batch}

-- Redis answers and the broker takes the message.
abbrev pub healthy : ℕ → Conditions
healthy now = record {
  redis = answers;
  channel = some (sent true);
  commit = none;
  now = now;
  looked_up_at = now;
  checked_at = now;
  written_at = now;
}

-- A request to buy, of a sale, by an address, at a time; or a batch of the oldest messages, of which the
-- second argument is what its COMMIT throws, if it fails.
pub data Event : Type 0 where
  buys : Text → Text → ℕ → Event
  drains : ℕ → Option Thrown → Event

module _ (r : RedisServer) (pg : Postgres) (cm : CacheManager) where
  -- A batch that is written is acknowledged; any other stays in the queue.
  abbrev pub settled : ℕ → World r pg cm → Result Thrown (Unit {0}) × Tables → World r pg cm
  settled n w (ok done, t) = record w { tables = t; backlog = drop n w.backlog }
  settled n w (throws e, t) = record w { tables = t }

  unfoldable pub step : Event → World r pg cm → World r pg cm
  step (buys sale_id email now) w = (purchase r pg cm (healthy now) sale_id email w).1
  step (drains n commit) w = settled n w (write_batch pg (fails commit) (take n w.backlog) w.tables)

  unfoldable pub run : List Event → World r pg cm → World r pg cm
  run [] w = w
  run (e ∷ es) w = run es (step e w)
