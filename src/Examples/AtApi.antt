-- ===== src/Examples/AtApi.antt =====
-- The theorems about apps/api at a request.
use sd_flash_sale.Prelude.{true, ◌≡◌, refl, [], ◌∷◌, none, some, if◌then◌else◌, select}
use sd_flash_sale.Prelude.Result.{ok}
use sd_flash_sale.Redis.Keys.{normalize_email}
use sd_flash_sale.Redis.Server.{absent_entry}
use sd_flash_sale.Redis.Sync.{SyncSaleInput, sync_sale}
use sd_flash_sale.Redis.Sync.Warm.{gate_of, sync_sale-IsWarm}
use sd_flash_sale.Redis.Gate.{IsWarm, attempt, decide}
use sd_flash_sale.Database.Server.{JoinedSale}
use sd_flash_sale.Database.Invariant.{IsConsistent}
use sd_flash_sale.Queue.Messages.{sent}
use sd_flash_sale.Api.Sales.Service.{find_row_by_id, find_all}
use sd_flash_sale.Api.Sales.Phases.{shows, find_all-shows}
use sd_flash_sale.Api.Sales.Freshness.{Lookup, IsFresh, IfFound, find_row_by_id-IsFresh}
use sd_flash_sale.Contract.{SalesFilter}
use sd_flash_sale.Api.Purchases.Write.Outcomes.{is_success}
use sd_flash_sale.Api.Purchases.Service.{Conditions, RedisLink, answers, World, purchase}
use sd_flash_sale.Api.Purchases.Service.Evidence.{
  BehindSuccess, BehindRefusal, purchase-backs_success,
}
use sd_flash_sale.Api.Purchases.Service.FastPath.{result_of, queued, purchase-fast_path}
use sd_flash_sale.Examples.RedisStub.{redis}
use sd_flash_sale.Examples.DatabaseStub.{
  postgres, cache_manager, Cache, sale_id, ann, tables, sale_row, product_row, tables-IsConsistent,
}

abbrev empty : Cache
empty = λ k. none

abbrev input : SyncSaleInput
input = record {
  id = sale_id;
  remaining_stock = 2;
  starts_at = 100;
  ends_at = 200;
  cancelled_at = none;
}

abbrev world : World redis postgres cache_manager
world = record {
  store = sync_sale redis input [] (λ k. absent_entry);
  tables = tables;
  backlog = [];
  cache = empty;
}

abbrev up : Conditions
up = record {
  redis = answers;
  channel = some (sent true);
  commit = none;
  now = 150;
  looked_up_at = 151;
  checked_at = 152;
  written_at = 153;
}

abbrev down : Conditions
down = record {
  redis = RedisLink.not_ready;
  channel = none;
  commit = none;
  now = 150;
  looked_up_at = 151;
  checked_at = 152;
  written_at = 153;
}

purchase-fast_path_example :
    let code = decide (gate_of input []) (normalize_email ann) 150 in
    let (answer, w') = purchase redis postgres cache_manager up sale_id ann world in
    (answer ≡ ok (result_of code))
    × (w'.tables ≡ tables)
    × (w'.backlog ≡ queued redis postgres cache_manager up sale_id ann code [])
    × IsWarm redis sale_id (attempt (gate_of input []) (normalize_email ann) 150).1 w'.store
purchase-fast_path_example =
    purchase-fast_path redis postgres cache_manager up sale_id ann (gate_of input []) world
      (sync_sale-IsWarm redis input [] (λ k. absent_entry)) refl refl

purchase-backs_success_example :
    let (answer, w') = purchase redis postgres cache_manager down sale_id ann world in
    IsConsistent w'.tables
    × (if is_success answer
        then BehindSuccess redis postgres cache_manager down sale_id ann world w'
        else BehindRefusal redis postgres cache_manager down sale_id ann world w')
purchase-backs_success_example =
    purchase-backs_success redis postgres cache_manager down sale_id ann world tables-IsConsistent

abbrev lookup : Lookup
lookup = record { now = 150; id = sale_id; tables = tables }

fresh : IsFresh postgres cache_manager [] empty
fresh = record { shown = λ id later row h. absurd (cc h) }

find_row_by_id-IsFresh_example :
    let (found, c') = find_row_by_id postgres cache_manager tables sale_id 150 empty in
    IsFresh postgres cache_manager (lookup ∷ []) c' × IfFound postgres cache_manager [] lookup found
find_row_by_id-IsFresh_example = find_row_by_id-IsFresh postgres cache_manager [] lookup empty fresh

find_all-shows_example :
    find_all postgres cache_manager tables (some SalesFilter.active) 150
    ≡ select
        (λ s. shows SalesFilter.active s.phase)
        (find_all postgres cache_manager tables none 150)
find_all-shows_example =
    find_all-shows postgres cache_manager tables SalesFilter.active 150 (refl, tt)

abbrev joined : JoinedSale
joined = record { sale = sale_row; product = product_row }
