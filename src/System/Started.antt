-- ===== src/System/Started.antt =====
-- From the warm script on: whatever requests and batches follow, Redis, the queue and the tables stay in
-- balance, and the queue can be drained.
use sd_flash_sale.Prelude.{ℕ, ◌≡◌, Bool, true, false, [], Option, none, some, Text}
use sd_flash_sale.Prelude.Result.{Result, ok}
use sd_flash_sale.Redis.Server.{RedisServer}
use sd_flash_sale.Redis.Gate.{Gate}
use sd_flash_sale.Redis.Sync.Warm.{gate_of}
use sd_flash_sale.Redis.WarmScript.{input_of, is_warmed, buyer_emails, warm}
use sd_flash_sale.Database.Schema.{SaleRow, Tables, find_sale}
use sd_flash_sale.Database.Server.{Postgres, Thrown}
use sd_flash_sale.Api.Sales.Service.{CacheManager}
use sd_flash_sale.Api.Purchases.Service.{World}
use sd_flash_sale.System.{Event, buys, drains}

-- The sales that the warm script loads
abbrev pub is_open : ℕ → Option SaleRow → Bool
is_open now none = false
is_open now (some sale) = is_warmed now sale

abbrev pub is_loaded : Tables → ℕ → Text → Bool
is_loaded t now id = is_open now (find_sale id t.sales)

-- The units of a sale
abbrev pub stock_in : Option SaleRow → ℕ
stock_in none = 0
stock_in (some sale) = sale.total_stock

abbrev pub total_of : Tables → Text → ℕ
total_of t id = stock_in (find_sale id t.sales)

-- A request is for a loaded sale.
abbrev pub IsFor : (Text → Bool) → Event → Type 0
IsFor is_live (buys id email now) = is_live id ≡ true
IsFor is_live (drains n commit) = Unit

module _ (r : RedisServer) (pg : Postgres) (cm : CacheManager) where
  abbrev gate_for : Tables → Text → Option SaleRow → Gate
  gate_for t id none = record {
    cancelled = true;
    starts_at = 0;
    ends_at = 0;
    stock = 0;
    buyers = [];
  }
  gate_for t id (some sale) = gate_of (input_of sale) (buyer_emails r pg t id)

  abbrev first_gates : Tables → Text → Gate
  first_gates t id = gate_for t id (find_sale id t.sales)

  -- The tables as they are, an empty queue, and Redis as the script leaves it
  unfoldable pub started : Tables → ℕ → r.Store → cm.Cache → World r pg cm
  started t now s cache = record {
    store = warm r pg t now s;
    tables = t;
    backlog = [];
    cache = cache;
  }

  module _ (is_live : Text → Bool) (totals : Text → ℕ) where
    abbrev IsWritten : Result Thrown (Unit {0}) × Tables → Type 0
    IsWritten m = (u : Tables) × (m ≡ (ok tt, u))
