-- ===== src/Database/Seed/Listed.antt =====
-- How the API lists the sales of packages/database/src/scripts/seed.ts.
use sd_flash_sale.Prelude.{
  ℕ, ◌*◌, ◌≤◌, ◌≡◌, refl, List, some, Text, text_eq, count, arith, All, true,
}
use sd_flash_sale.Contract.{SalesFilter}
use sd_flash_sale.Database.Schema.{SaleRow, sale_checks}
use sd_flash_sale.Database.Seed.{day, seed_products, product_by_name, seed_sales}
use sd_flash_sale.Api.Sales.Service.{is_listed}

module _ (new_id : Text → Text) where
  -- From two days after the epoch on: the script finds all its products, its sales meet the checks
  -- of the table, and at its own time the API lists one of them as past, three as active and three
  -- as upcoming, as its log says.
  pub seed_sales-listed :
      (now : ℕ)
      → 2 * day ≤ now
      → (sales : List SaleRow) × (seed_sales new_id now ≡ some sales)
        × All (λ s. sale_checks s ≡ true) sales
        × (count (is_listed (some SalesFilter.past) now) sales ≡ 1)
        × (count (is_listed (some SalesFilter.active) now) sales ≡ 3)
        × (count (is_listed (some SalesFilter.upcoming) now) sales ≡ 3)
  unfolding seed_sales product_by_name seed_products text_eq is_listed
  seed_sales-listed now h = (
    _,
    refl,
    (
      ground arith,
      (
        ground arith,
        (ground arith, (ground arith, (ground arith, (ground arith, (ground arith, tt))))),
      ),
    ),
    ground arith,
    ground arith,
    ground arith,
  )
