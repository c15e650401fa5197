-- ===== src/Examples/AtSystem.antt =====
-- The theorems about the parts together, from two units of one sale on.
use sd_flash_sale.Prelude.{true, false, List, [], ◌∷◌, none, some}
use sd_flash_sale.Redis.Server.{absent_entry}
use sd_flash_sale.Redis.Gate.{Gate}
use sd_flash_sale.Database.Server.{primitive, rolled_back, unanswered}
use sd_flash_sale.System.{Event, buys, drains, run}
use sd_flash_sale.System.{healthy}
use sd_flash_sale.System.Faults
use sd_flash_sale.System.Faults.Kept.{IsSound, run-IsSound}
use sd_flash_sale.Api.Purchases.Service.{Conditions, RedisLink, answers}
use sd_flash_sale.Queue.Messages.{sent}
use sd_flash_sale.Examples.RedisStub.{redis, Store}
use sd_flash_sale.Examples.DatabaseStub.{
  postgres, cache_manager, Cache, sale_id, ann, bob, tables, tables-IsConsistent,
}

abbrev empty : Cache
empty k = none

abbrev blank : Store
blank k = absent_entry

abbrev events : List Event
events =
    buys sale_id ann 150
    ∷ drains 1 (some primitive)
    ∷ buys sale_id bob 160
    ∷ drains 1 none
    ∷ buys sale_id ann 170
    ∷ []

-- Redis is lost, and a COMMIT fails.
abbrev broken : Conditions
broken = record {
  redis = RedisLink.loses_reply;
  channel = none;
  commit = some (rolled_back primitive);
  now = 150;
  looked_up_at = 151;
  checked_at = 152;
  written_at = 153;
}

abbrev trouble : List (Faults.Event redis postgres cache_manager)
trouble =
    Faults.requests broken sale_id ann
    ∷ Faults.requests (healthy 150) sale_id ann
    ∷ Faults.replaces blank empty
    ∷ Faults.requests (record broken { redis = answers; channel = some (sent false) }) sale_id bob
    ∷ Faults.requests (record broken { commit = none }) sale_id bob
    ∷ Faults.writes 1 none false
    ∷ Faults.writes 1 (some (unanswered primitive)) true
    ∷ Faults.gives_up 1
    ∷ []

run-IsSound_example : IsSound redis postgres cache_manager (
    Faults.run redis postgres cache_manager trouble
      (Faults.opening redis postgres cache_manager blank empty tables))
run-IsSound_example =
    run-IsSound redis postgres cache_manager trouble blank empty tables tables-IsConsistent
