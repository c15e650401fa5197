-- ===== src/Api/Sales/Phases.antt =====
-- The filters of `findAll` (apps/api/src/sales/sales.service.ts) and the phases of `derivePhase`
-- (sales.utils.ts) are two descriptions of the same thing.
use mathlib.Core.List.{map-append}
use sd_flash_sale.Prelude.{
  ℕ, ◌≡◌, refl, sym, ap, ap₂, ◌∙◌, ◌↔◌, Bool, true, false, ◌&&◌, List, [], ◌∷◌, ◌++◌, map, Option,
  none, some, Text, is_some, if◌then◌else◌, arith, select, All,
}
use sd_flash_sale.Contract.{Sale, SalePhase, SalesFilter}
use sd_flash_sale.Database.Schema.{Tables, sale_checks, ProductRow}
use sd_flash_sale.Database.Schema
use sd_flash_sale.Database.Server.{Postgres, JoinedSale, selected_sales, join_product, find_product}
use sd_flash_sale.Redis.Reserve.{sale_not_active}
use sd_flash_sale.Redis.Gate.{Gate, decide}
use sd_flash_sale.Api.Sales.Utils.{
  SaleRow, sale_columns, map_row_to_sale, derive_phase, is_sale_open,
}
use sd_flash_sale.Api.Sales.Service.{CacheManager, is_listed, find_all}

-- The phases that each filter is meant to show.
abbrev pub shows : SalesFilter → SalePhase → Bool
shows SalesFilter.active SalePhase.active = true
shows SalesFilter.upcoming SalePhase.upcoming = true
shows SalesFilter.past SalePhase.ended = true
shows SalesFilter.past SalePhase.sold_out = true
shows _ _ = false

-- On a row that meets the table's checks, the condition that the database evaluates and the phase that
-- the API computes say the same.
pub is_listed-derive_phase :
    (f : SalesFilter) (now : ℕ) (j : JoinedSale)
    → sale_checks j.sale ≡ true
    → is_listed (some f) now j.sale
      ≡ (is_listed none now j.sale && shows f (derive_phase (sale_columns j) now))
unfolding is_listed derive_phase
is_listed-derive_phase SalesFilter.active now j h = ground arith
is_listed-derive_phase SalesFilter.upcoming now j h = ground arith
is_listed-derive_phase SalesFilter.past now j h = ground arith

abbrev listed : List JoinedSale → ℕ → List Sale
listed js now = map (λ j. map_row_to_sale (sale_columns j) now) js

select-append {ℓ} :
    {A : Type ℓ} (p : A → Bool) (xs ys : List A) → select p (xs ++ ys) ≡ select p xs ++ select p ys
select-append p [] ys = refl
select-append p (x ∷ xs) ys = ground (arith, select-append p xs ys)

one_sale-shows :
    (f : SalesFilter) (now : ℕ) (sale : Schema.SaleRow) (product : Option ProductRow)
    → sale_checks sale ≡ true
    → listed (if is_listed (some f) now sale then join_product sale product else []) now
      ≡ select
          (λ s. shows f s.phase)
          (listed (if is_listed none now sale then join_product sale product else []) now)
unfolding join_product map_row_to_sale
one_sale-shows f now sale none h = ground arith
one_sale-shows f now sale (some product) h =
    rw (is_listed-derive_phase f now (record { sale = sale; product = product }) h) (ground arith)

selected-shows :
    (f : SalesFilter) (now : ℕ) (products : List ProductRow) (sales : List Schema.SaleRow)
    → All (λ sale. sale_checks sale ≡ true) sales
    → listed (selected_sales products sales (is_listed (some f) now)) now
      ≡ select
          (λ s. shows f s.phase)
          (listed (selected_sales products sales (is_listed none now)) now)
unfolding selected_sales
selected-shows f now products [] h = refl
selected-shows f now products (sale ∷ sales) h =
    let product = find_product sale.product_id products in
    let here = λ (w : Schema.SaleRow → Bool). if w sale then join_product sale product else [] in
    map-append _ (here (is_listed (some f) now))
      (selected_sales products sales (is_listed (some f) now))
    ∙ ap₂ ◌++◌ (one_sale-shows f now sale product h.0) (selected-shows f now products sales h.1)
    ∙ sym (
        ap (select (λ s. shows f s.phase)) (
          map-append _ (here (is_listed none now))
            (selected_sales products sales (is_listed none now)))
        ∙ select-append _ (listed (here (is_listed none now)) now) _)

module _ (pg : Postgres) (cm : CacheManager) where
  -- If the sales meet the table's checks, the list under a filter is the list of all sales, cut
  -- down to those whose phase is meant.
  pub find_all-shows :
      (t : Tables) (f : SalesFilter) (now : ℕ)
      → All (λ sale. sale_checks sale ≡ true) t.sales
      → find_all pg cm t (some f) now ≡ select (λ s. shows f s.phase) (find_all pg cm t none now)
  unfolding find_all
  find_all-shows t f now h =
      rw
        (pg.select_sales_law t (is_listed (some f) now), pg.select_sales_law t (is_listed none now))
        (selected-shows f now t.products t.sales h)

-- A Redis gate with the window and the cancellation of a row answers "not active" at exactly the
-- times at which the check of the database path finds the row not open.
is_sale_open-decide :
    (row : SaleRow) (g : Gate) (buyer : Text) (now : ℕ)
    → g.cancelled ≡ is_some row.cancelled_at
    → g.starts_at ≡ row.starts_at
    → g.ends_at ≡ row.ends_at
    → (is_sale_open row now ≡ false) ↔ (decide g buyer now ≡ sale_not_active)
unfolding is_sale_open decide
is_sale_open-decide row g buyer now c s e = (ground arith, ground arith)
