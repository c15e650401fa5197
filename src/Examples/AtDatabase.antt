-- ===== src/Examples/AtDatabase.antt =====
-- The theorems about packages/database and the API's transaction at concrete tables.
use sd_flash_sale.Prelude.{
  ℕ, ◌≤◌, ◌≡◌, List, [], ◌∷◌, none, some, Text, if◌then◌else◌, arith, All, any, ltb,
}
use sd_flash_sale.Prelude.Result.{ok}
use sd_flash_sale.Database.Schema.{Tables, outside_period, is_purchase_of}
use sd_flash_sale.Database.WriteBatch.{PurchaseWriteEntry, write_purchase_batch, entry_row}
use sd_flash_sale.Database.WriteBatch.Balance.{Wrote, write_purchase_batch-Wrote}
use sd_flash_sale.Database.WriteBatch.Redelivery.{write_purchase_batch-again}
use sd_flash_sale.Database.WriteBatch.Progress.{IsTimely, wanted, write_purchase_batch-ok}
use sd_flash_sale.Api.Purchases.Write.{
  write_purchase, success_result, already_purchased_result, sold_out_result, sale_not_active_result,
}
use sd_flash_sale.Api.Purchases.Write.Outcomes.{recorded, write_purchase_lem}
use sd_flash_sale.Examples.DatabaseStub.{
  postgres, sale_id, ann, bob, tables, sale_row, sale_row-found, tables-IsConsistent, tables-room,
}

abbrev entries : List PurchaseWriteEntry
entries =
    record { sale_id = sale_id; email = ann; reserved_at = 150 }
    ∷ record { sale_id = sale_id; email = bob; reserved_at = 200 }
    ∷ []

write_purchase_batch-Wrote_example :
    Wrote postgres none
      (write_purchase_batch postgres none entries tables)
      tables
      (write_purchase_batch postgres none entries tables)
write_purchase_batch-Wrote_example =
    write_purchase_batch-Wrote postgres none entries tables tables-IsConsistent

timely : All (λ e. IsTimely tables (entry_row postgres e)) entries
unfolding entry_row
timely = (
  (sale_row, sale_row-found, omega arith, omega arith),
  ((sale_row, sale_row-found, omega arith, omega arith), tt),
)

wanted-few : (id : Text) → wanted postgres id entries ≤ 2
wanted-few id = ground arith

write_purchase_batch-ok_example :
    (n : ℕ) × (u : Tables) × (write_purchase_batch postgres none entries tables ≡ (ok n, u))
write_purchase_batch-ok_example =
    write_purchase_batch-ok postgres entries tables timely
      (λ id sale found. tables-room (wanted postgres id entries) (wanted-few id) id sale found)

abbrev written :
    (n : ℕ) × (u : Tables) × (write_purchase_batch postgres none entries tables ≡ (ok n, u))
written =
    write_purchase_batch-ok postgres entries tables timely
      (λ id sale found. tables-room (wanted postgres id entries) (wanted-few id) id sale found)

write_purchase_batch-again_example :
    write_purchase_batch postgres none entries written.1 ≡ (ok 0, written.1)
write_purchase_batch-again_example = write_purchase_batch-again postgres entries tables written.2

write_purchase_lem_example : write_purchase postgres none 150 sale_id ann tables ≡ (
    if outside_period (some sale_row) 150
    then (ok sale_not_active_result, tables)
    else if any (is_purchase_of sale_id ann) tables.purchases
    then (ok already_purchased_result, tables)
    else if ltb 0 sale_row.remaining_stock
    then (ok success_result, recorded postgres 150 sale_id ann sale_row tables)
    else (ok sold_out_result, tables))
write_purchase_lem_example =
    write_purchase_lem postgres 150 sale_id ann sale_row tables sale_row-found
