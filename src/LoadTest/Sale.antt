-- ===== src/LoadTest/Sale.antt =====
-- packages/load-test/scripts/load-sale.ts, prepare.ts and cleanup.ts: the sale of a load test, made before
-- it and removed after it, in the tables and in Redis.
pub mod Removed
pub mod Again
use sd_flash_sale.Prelude.{
  ℕ, zero, ◌+◌, ◌-◌, ◌*◌, Bool, true, false, List, [], ◌∷◌, ◌++◌, map, Option, none, some, Text,
  codes, text_eq, if◌then◌else◌, ◌==◌,
}
use sd_flash_sale.Prelude.Result.{Result, ok, throws, ◌>>=◌}
use sd_flash_sale.Redis.Keys.{sale_stock, sale_meta, sale_buyers}
use sd_flash_sale.Redis.Server.{RedisServer}
use sd_flash_sale.Redis.Sync.{SyncSaleInput, sync_sale}
use sd_flash_sale.Redis.WarmScript.{input_of}
use sd_flash_sale.Database.Schema.{ProductRow, SaleRow, PurchaseRow, Tables}
use sd_flash_sale.Database.Server.{Thrown}
use sd_flash_sale.Database.Scripts.{PostgresScripts}
use sd_flash_sale.LoadTest.Suite.{TestProfile, tests}

abbrev pub load_test_product_name : Text
load_test_product_name = codes "[load-test] Flash Sale Target"

abbrev pub hour_ms : ℕ
hour_ms = 60 * 60 * 1000

abbrev pub day_ms : ℕ
day_ms = 24 * hour_ms

abbrev pub head {ℓ} : {A : Type ℓ} → List A → Option A
head [] = none
head (x ∷ xs) = some x

module _ (db : PostgresScripts) where
  unfoldable pub find_load_test_product : Tables → Option ProductRow
  find_load_test_product t = head (db.products_where t (λ p. text_eq p.name load_test_product_name))

  -- The loop over the sales
  unfoldable pub delete_purchases_of : List SaleRow → Tables → Tables
  delete_purchases_of [] t = t
  delete_purchases_of (sale ∷ sales) t =
      delete_purchases_of sales (db.delete_purchases t (λ p. text_eq p.sale_id sale.id))

  unfoldable pub delete_product : ProductRow → Tables → Result Thrown (List Text × Tables)
  delete_product product t =
      let sale_rows = db.sales_where t (λ s. text_eq s.product_id product.id) in
      db.delete_sales (delete_purchases_of sale_rows t) (λ s. text_eq s.product_id product.id)
      >>= λ t'. db.delete_products t' (λ p. text_eq p.id product.id) >>= λ t''.
          ok (map (λ (s : SaleRow). s.id) sale_rows, t'')

  unfoldable pub delete_load_test_rows : Tables → Result Thrown (List Text × Tables)
  delete_load_test_rows t = elim (find_load_test_product t) [
    | none ↦ ok ([], t)
    | some product ↦ delete_product product t
  ]

  abbrev pub load_test_product : Text → ProductRow
  load_test_product id = record {
    id = id;
    name = load_test_product_name;
    description = some (
        codes
          "Created by @workspace/load-test — tagged and removed by scripts/cleanup.ts after each run.");
    image_url = none;
    price = codes "1.00";
  }

  abbrev pub load_test_sale : Text → Text → ℕ → ℕ → SaleRow
  load_test_sale id product_id total_stock now = record {
    id = id;
    product_id = product_id;
    total_stock = total_stock;
    remaining_stock = total_stock;
    sale_price = codes "1.00";
    starts_at = now - hour_ms;
    ends_at = now + day_ms;
    cancelled_at = none;
  }

  unfoldable pub create_load_test_sale : ℕ → ℕ → Tables → Result Thrown ((Text × SaleRow) × Tables)
  create_load_test_sale total_stock now t = delete_load_test_rows t >>= λ deleted.
      let product = load_test_product (db.new_product_id deleted.1) in
      let t' = db.insert_product deleted.1 product in
      let sale = load_test_sale (db.new_sale_id t') product.id total_stock now in
      db.insert_sale t' sale >>= λ t''. ok ((product.id, sale), t'')

  pub record PrepareResult : Type 0 where
    pub product_id : Text
    pub sale_id : Text

  pub data PrepareError : Type 0 where
    unknown_test : PrepareError
    failed : Thrown → PrepareError

  unfoldable pub stock_profile : List TestProfile → Text → Option ℕ
  stock_profile [] name = none
  stock_profile (test ∷ tests) name =
      if text_eq test.name name then some test.stock else stock_profile tests name

  -- `Number(process.env.STOCK) || STOCK_PROFILES[testName]`, of which 0 and NaN are passed over
  abbrev pub total_stock_of : ℕ → Option ℕ → Option ℕ
  total_stock_of zero none = none
  total_stock_of zero (some profile) = if profile == 0 then none else some profile
  total_stock_of stock profile = some stock

  module _ (r : RedisServer) where
    -- `answers` says whether Redis can be used. The names that every object inherits are no tests here.
    unfoldable pub warm_into_redis : Bool → SaleRow → r.Store → r.Store
    warm_into_redis true sale s = sync_sale r (input_of sale) [] s
    warm_into_redis false sale s = s

    unfoldable pub prepare :
        Bool
        → ℕ
        → ℕ
        → Text
        → Tables × r.Store
        → Result PrepareError (PrepareResult × Tables × r.Store)
    unfolding stock_profile
    prepare answers env_stock now test_name (t, s) =
        elim (total_stock_of env_stock (stock_profile tests test_name)) [
          | none ↦ throws unknown_test
          | some total_stock ↦ elim (create_load_test_sale total_stock now t) [
            | throws e ↦ throws (failed e)
            | ok ((product_id, sale), t') ↦ ok (
              record { product_id = product_id; sale_id = sale.id },
              t',
              warm_into_redis answers sale s,
            )
          ]
        ]

    abbrev pub keys_of : List Text → List Text
    keys_of [] = []
    keys_of (id ∷ ids) = sale_stock id ∷ sale_meta id ∷ sale_buyers id ∷ keys_of ids

    unfoldable pub remove_from_redis : Bool → List Text → r.Store → r.Store
    remove_from_redis answers [] s = s
    remove_from_redis true (id ∷ ids) s = r.del s (keys_of (id ∷ ids))
    remove_from_redis false (id ∷ ids) s = s

    unfoldable pub cleanup : Bool → Tables × r.Store → Result Thrown (Tables × r.Store)
    cleanup answers (t, s) =
        delete_load_test_rows t >>= λ deleted. ok (deleted.1, remove_from_redis answers deleted.0 s)
