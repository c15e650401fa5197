-- ===== src/Examples/AtRedis.antt =====
-- The theorems about packages/redis at a loaded sale.
use sd_flash_sale.Prelude.{
  ◌+◌, ◌≤◌, ◌≡◌, refl, List, [], ◌∷◌, none, Text, codes, text_eq, length, count, arith, false,
}
use sd_flash_sale.Redis.Keys.{normalize_email}
use sd_flash_sale.Redis.Server.{absent_entry}
use sd_flash_sale.Redis.Reserve.{reserve_purchase}
use sd_flash_sale.Redis.Sync.{SyncSaleInput, ScanPage, sync_sale}
use sd_flash_sale.Redis.Sync.Warm.{gate_of, sync_sale-IsWarm}
use sd_flash_sale.Redis.Sync.Flush.{IsFullScan, seen}
use sd_flash_sale.Redis.Gate.{Gate, IsWarm, attempt}
use sd_flash_sale.Redis.Gate.Refine.{reserve_purchase-refines-attempt}
use sd_flash_sale.Redis.Gate.Stock.{
  Attempt, won, serve, serve_never_oversells, serve_once_per_buyer,
}
use sd_flash_sale.Examples.RedisStub.{redis, Store}
use sd_flash_sale.Examples.DatabaseStub.{sale_id, other_id, ann, bob}

abbrev nothing : Store
nothing = λ k. absent_entry

abbrev input : SyncSaleInput
input = record {
  id = sale_id;
  remaining_stock = 2;
  starts_at = 100;
  ends_at = 200;
  cancelled_at = none;
}

abbrev loaded : Store
loaded = sync_sale redis input (bob ∷ []) nothing

abbrev rush : List Attempt
rush =
    record { sale_id = sale_id; email = ann; now = 120 }
    ∷ record { sale_id = other_id; email = ann; now = 121 }
    ∷ record { sale_id = sale_id; email = codes "aNN@x.io"; now = 122 }
    ∷ []

abbrev gate : Gate
gate = gate_of input (bob ∷ [])

abbrev pages : List ScanPage
pages = record { cursor = codes "0"; keys = [] } ∷ []

full : IsFullScan redis pages nothing
unfolding seen text_eq
full = record { ends = refl; complete = λ k m s. refl }

once : (b : Text) → count (text_eq b) gate.buyers ≤ 1
once b = ground arith

serve_never_oversells_example :
    (g' : Gate) × IsWarm redis sale_id g' (serve redis rush loaded).1
    × (g'.stock + length (won sale_id (serve redis rush loaded).0) ≡ 2)
serve_never_oversells_example =
    serve_never_oversells redis sale_id rush gate loaded
      (sync_sale-IsWarm redis input (bob ∷ []) nothing)

serve_once_per_buyer_example :
    count (text_eq (normalize_email ann)) (won sale_id (serve redis rush loaded).0)
      + count (text_eq (normalize_email ann)) gate.buyers
    ≤ 1
serve_once_per_buyer_example =
    serve_once_per_buyer redis sale_id rush gate loaded ann
      (sync_sale-IsWarm redis input (bob ∷ []) nothing) once

reserve_purchase-refines-attempt_example :
    ((reserve_purchase redis sale_id ann 150 loaded).0 ≡ (attempt gate (normalize_email ann) 150).0)
    × IsWarm redis sale_id
        (attempt gate (normalize_email ann) 150).1
        (reserve_purchase redis sale_id ann 150 loaded).1
reserve_purchase-refines-attempt_example =
    reserve_purchase-refines-attempt redis sale_id ann 150 gate loaded
      (sync_sale-IsWarm redis input (bob ∷ []) nothing)

apart : text_eq sale_id other_id ≡ false
unfolding text_eq
apart = refl
