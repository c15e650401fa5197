-- ===== src/System/Faults.antt =====
-- The parts together under failures, while the broker keeps the messages that have reached it: Redis is lost
-- or emptied, replies and messages do not arrive, COMMITs fail or their replies are lost, the worker stops
-- between writing a batch and acknowledging it, and gives batches up.
pub mod Kept
use sd_flash_sale.Prelude.{
  ℕ, Bool, true, false, not, ◌&&◌, List, [], ◌∷◌, ◌++◌, Option, none, some, Text, take, drop,
  if◌then◌else◌,
}
use sd_flash_sale.Prelude.Result.{Result, ok, throws}
use sd_flash_sale.Redis.Server.{RedisServer}
use sd_flash_sale.Database.Schema.{Tables}
use sd_flash_sale.Database.Server.{Postgres, Thrown, CommitFault}
use sd_flash_sale.Database.WriteBatch.{PurchaseWriteEntry}
use sd_flash_sale.Api.Sales.Service.{CacheManager}
use sd_flash_sale.Api.Purchases.Service.{Conditions, World, purchase, Reply}
use sd_flash_sale.Api.Purchases.Service.Evidence.{loses}
use sd_flash_sale.Api.Purchases.Write.Outcomes.{is_success}
use sd_flash_sale.Worker.{write_batch}

module _ (r : RedisServer) (pg : Postgres) (cm : CacheManager) where
  -- The dead letters, and the sale and address of each success that was answered to a request whose channel
  -- does not lose what it takes. The channel has no publisher confirms: behind a success of any other request
  -- there may be nothing.
  pub record History : Type 0 where
    pub world : World r pg cm
    pub dead : List PurchaseWriteEntry
    pub promised : List (Text × Text)

  -- A request under some conditions; a batch of the oldest messages, with what becomes of its COMMIT and
  -- whether it is acknowledged when it is written; a batch that is given up; another state of Redis
  -- and of the cache.
  pub data Event : Type 0 where
    requests : Conditions → Text → Text → Event
    writes : ℕ → Option CommitFault → Bool → Event
    gives_up : ℕ → Event
    replaces : r.Store → cm.Cache → Event

  abbrev pub acknowledged :
      ℕ → Bool → World r pg cm → Result Thrown (Unit {0}) × Tables → World r pg cm
  acknowledged n acks w (ok done, t) = record w {
    tables = t;
    backlog = if acks then drop n w.backlog else w.backlog;
  }
  acknowledged n acks w (throws e, t) = record w { tables = t }

  abbrev pub answered : Conditions → Text → Text → Reply r pg cm → History → History
  answered c id email (answer, w) h = record h {
    world = w;
    promised =
        if is_success answer && not (loses c.channel) then (id, email) ∷ h.promised else h.promised;
  }

  unfoldable pub step : Event → History → History
  step (requests c id email) h = answered c id email (purchase r pg cm c id email h.world) h
  step (writes n commit acks) h = record h {
    world =
        acknowledged n acks h.world (write_batch pg commit (take n h.world.backlog) h.world.tables);
  }
  step (gives_up n) h = record h {
    world = record h.world { backlog = drop n h.world.backlog };
    dead = take n h.world.backlog ++ h.dead;
  }
  step (replaces store cache) h = record h {
    world = record h.world { store = store; cache = cache };
  }

  unfoldable pub run : List Event → History → History
  run [] h = h
  run (e ∷ es) h = run es (step e h)

  abbrev pub opening : r.Store → cm.Cache → Tables → History
  opening store cache t = record {
    world = record { store = store; tables = t; backlog = []; cache = cache };
    dead = [];
    promised = [];
  }
