-- ===== src/Api/Sales/Service.antt =====
-- apps/api/src/sales/sales.service.ts. The cache (cache-manager) is an interface; the clock's readings
-- are arguments.
use sd_flash_sale.Prelude.{
  ℕ, ◌+◌, ◌≤◌, ◌≡◌, Bool, true, false, ◌&&◌, ◌||◌, not, List, [], ◌∷◌, ◌++◌, map, Option, none,
  some, Text, codes, text_eq, ltb, leb, ◌==◌, is_some, if◌then◌else◌,
}
use sd_flash_sale.Prelude.Result.{Result, ok, throws}
use sd_flash_sale.Contract.{Sale, SalesFilter}
use sd_flash_sale.Database.Schema.{Tables}
use sd_flash_sale.Database.Schema
use sd_flash_sale.Database.Server.{Postgres, JoinedSale}
use sd_flash_sale.Api.Sales.Utils.{SaleRow, sale_columns, map_row_to_sale}

-- `get` may forget at any time; what it gives was put there under the key, and its time to live is
-- not over.
pub record CacheManager : Type 1 where
  pub Cache : Type 0
  pub get : Cache → Text → ℕ → Option SaleRow
  pub set : Cache → Text → SaleRow → ℕ → ℕ → Cache
  pub get-set :
      (c : Cache) (k : Text) (row : SaleRow) (ttl now later : ℕ) {found : SaleRow}
      → get (set c k row ttl now) k later ≡ some found
      → (found ≡ row) × (later ≤ now + ttl)
  pub get-set_ne :
      (c : Cache) (k j : Text) (row : SaleRow) (ttl now later : ℕ)
      → text_eq k j ≡ false
      → get (set c k row ttl now) j later ≡ get c j later

abbrev pub sale_cache_ttl_ms : ℕ
sale_cache_ttl_ms = 1000

unfoldable pub sale_cache_key : Text → Text
sale_cache_key id = codes "sale:" ++ id

pub data HttpError : Type 0 where
  not_found : HttpError

-- `const [row] = …`
abbrev pub first_row : List JoinedSale → Option SaleRow
first_row [] = none
first_row (j ∷ js) = some (sale_columns j)

-- The conditions of `findAll`, on a row of the table `sales`
abbrev pub is_active : Schema.SaleRow → ℕ → Bool
is_active sale now = leb sale.starts_at now && ltb now sale.ends_at && ltb 0 sale.remaining_stock

abbrev pub is_upcoming : Schema.SaleRow → ℕ → Bool
is_upcoming sale now = ltb now sale.starts_at

abbrev pub is_past : Schema.SaleRow → ℕ → Bool
is_past sale now =
    leb sale.ends_at now
    || (leb sale.starts_at now && ltb now sale.ends_at && sale.remaining_stock == 0)

-- With no status there is no such condition.
abbrev pub status_condition : Option SalesFilter → Schema.SaleRow → ℕ → Bool
status_condition none sale now = true
status_condition (some SalesFilter.active) sale now = is_active sale now
status_condition (some SalesFilter.upcoming) sale now = is_upcoming sale now
status_condition (some SalesFilter.past) sale now = is_past sale now

unfoldable pub is_listed : Option SalesFilter → ℕ → Schema.SaleRow → Bool
is_listed status now sale = not (is_some sale.cancelled_at) && status_condition status sale now

module _ (pg : Postgres) (cm : CacheManager) where
  open pg use {select_sales}
  open cm use {Cache, get, set}

  -- Only hits are cached.
  remember : Cache → Text → ℕ → Option SaleRow → Option SaleRow × Cache
  remember cache id now none = (none, cache)
  remember cache id now (some row) =
      (some row, set cache (sale_cache_key id) row sale_cache_ttl_ms now)

  or_else : Option SaleRow → Cache → Option SaleRow × Cache → Option SaleRow × Cache
  or_else (some row) cache fetched = (some row, cache)
  or_else none cache fetched = fetched

  unfoldable pub find_row_by_id : Tables → Text → ℕ → Cache → Option SaleRow × Cache
  unfolding remember or_else
  find_row_by_id t id now cache =
      or_else (get cache (sale_cache_key id) now) cache
        (remember cache id now (first_row (select_sales t (λ sale. text_eq sale.id id))))

  unfoldable pub find_all : Tables → Option SalesFilter → ℕ → List Sale
  unfolding is_listed
  find_all t status now =
      map (λ j. map_row_to_sale (sale_columns j) now) (select_sales t (is_listed status now))

  visible : Option SaleRow → ℕ → Result HttpError Sale
  visible none now = throws not_found
  visible (some row) now =
      if is_some row.cancelled_at then throws not_found else ok (map_row_to_sale row now)

  unfoldable pub find_by_id : Tables → Text → ℕ → Cache → Result HttpError Sale × Cache
  unfolding find_row_by_id visible
  find_by_id t id now cache =
      let (row, cache') = find_row_by_id t id now cache in (visible row now, cache')
