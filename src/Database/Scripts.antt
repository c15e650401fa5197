-- ===== src/Database/Scripts.antt =====
-- The statements that scripts send to PostgreSQL besides those of Database.Server: rows of products and
-- sales are inserted, and rows are deleted, unless another row refers to one of them.
use sd_flash_sale.Prelude.{
  ◌≡◌, Bool, not, ◌&&◌, List, ◌∷◌, Text, codes, text_eq, any, select, if◌then◌else◌,
}
use sd_flash_sale.Prelude.Result.{Result, ok, throws}
use sd_flash_sale.Database.Schema.{
  ProductRow, SaleRow, PurchaseRow, Tables, sale_checks, foreign_key_violation,
}
use sd_flash_sale.Database.Server.{Thrown, query_error}

abbrev pub check_violation : Text
check_violation = codes "23514"

unfoldable pub inserted_sale : Tables → SaleRow → Result Thrown Tables
inserted_sale t sale =
    if not (sale_checks sale)
    then throws (query_error check_violation)
    else if any (λ p. text_eq p.id sale.product_id) t.products
    then ok (record t { sales = sale ∷ t.sales })
    else throws (query_error foreign_key_violation)

-- `onDelete: "restrict"`
unfoldable pub deleted_sales : Tables → (SaleRow → Bool) → Result Thrown Tables
deleted_sales t test =
    if any (λ s. test s && any (λ p. text_eq p.sale_id s.id) t.purchases) t.sales
    then throws (query_error foreign_key_violation)
    else ok (record t { sales = select (λ s. not (test s)) t.sales })

unfoldable pub deleted_products : Tables → (ProductRow → Bool) → Result Thrown Tables
deleted_products t test =
    if any (λ p. test p && any (λ s. text_eq s.product_id p.id) t.sales) t.products
    then throws (query_error foreign_key_violation)
    else ok (record t { products = select (λ p. not (test p)) t.products })

pub record PostgresScripts : Type 0 where
  -- `gen_random_uuid()`, for the next row
  pub new_product_id : Tables → Text
  pub new_sale_id : Tables → Text
  pub products_where : Tables → (ProductRow → Bool) → List ProductRow
  pub sales_where : Tables → (SaleRow → Bool) → List SaleRow
  pub insert_product : Tables → ProductRow → Tables
  pub insert_sale : Tables → SaleRow → Result Thrown Tables
  pub delete_purchases : Tables → (PurchaseRow → Bool) → Tables
  pub delete_sales : Tables → (SaleRow → Bool) → Result Thrown Tables
  pub delete_products : Tables → (ProductRow → Bool) → Result Thrown Tables
  pub products_where_law :
      (t : Tables) (test : ProductRow → Bool) → products_where t test ≡ select test t.products
  pub sales_where_law :
      (t : Tables) (test : SaleRow → Bool) → sales_where t test ≡ select test t.sales
  pub insert_product_law :
      (t : Tables) (p : ProductRow) → insert_product t p ≡ record t { products = p ∷ t.products }
  pub insert_sale_law : (t : Tables) (s : SaleRow) → insert_sale t s ≡ inserted_sale t s
  pub delete_purchases_law :
      (t : Tables) (test : PurchaseRow → Bool)
      → delete_purchases t test ≡ record t { purchases = select (λ p. not (test p)) t.purchases }
  pub delete_sales_law :
      (t : Tables) (test : SaleRow → Bool) → delete_sales t test ≡ deleted_sales t test
  pub delete_products_law :
      (t : Tables) (test : ProductRow → Bool) → delete_products t test ≡ deleted_products t test
