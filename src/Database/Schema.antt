-- ===== src/Database/Schema.antt =====
-- packages/database/src/schema and the constraints and the trigger of packages/database/drizzle: the
-- tables, and when a purchase is refused. Times are milliseconds since the epoch, prices are the
-- texts of their numerics; `remaining_stock` and `total_stock` are numbers, which their checks keep
-- from being negative. The columns `created_at` and `updated_at` are read by no query and left out.
use sd_flash_sale.Prelude.{
  ℕ, Bool, false, ◌&&◌, ◌||◌, List, [], ◌∷◌, Option, none, some, Text, codes, text_eq,
  to_lower_case, any, ltb, leb, if◌then◌else◌, is_some,
}

pub record ProductRow : Type 0 where
  pub id : Text
  pub name : Text
  pub description : Option Text
  pub image_url : Option Text
  pub price : Text

pub record SaleRow : Type 0 where
  pub id : Text
  pub product_id : Text
  pub total_stock : ℕ
  pub remaining_stock : ℕ
  pub sale_price : Text
  pub starts_at : ℕ
  pub ends_at : ℕ
  pub cancelled_at : Option ℕ

pub record PurchaseRow : Type 0 where
  pub id : Text
  pub sale_id : Text
  pub email : Text
  pub purchased_at : ℕ

pub record Tables : Type 0 where
  pub products : List ProductRow
  pub sales : List SaleRow
  pub purchases : List PurchaseRow

-- `sales_end_after_start` and `sales_remaining_lte_total`
abbrev pub sale_checks : SaleRow → Bool
sale_checks row = ltb row.starts_at row.ends_at && leb row.remaining_stock row.total_stock

-- The column type `citext` compares without regard to case.
abbrev pub citext_eq : Text → Text → Bool
citext_eq a b = text_eq (to_lower_case a) (to_lower_case b)

-- The primary key of `sales` makes this row the only one.
unfoldable pub find_sale : Text → List SaleRow → Option SaleRow
find_sale id [] = none
find_sale id (row ∷ rows) = if text_eq row.id id then some row else find_sale id rows

-- `purchases_one_per_user_per_sale`
abbrev pub is_purchase_of : Text → Text → PurchaseRow → Bool
is_purchase_of sale_id email p = text_eq p.sale_id sale_id && citext_eq p.email email

-- `trg_purchases_within_sale_period`: with no such sale its comparisons are null, and nothing is raised.
abbrev pub outside_period : Option SaleRow → ℕ → Bool
outside_period none purchased_at = false
outside_period (some sale) purchased_at =
    ltb purchased_at sale.starts_at || ltb sale.ends_at purchased_at

abbrev pub unique_violation : Text
unique_violation = codes "23505"

abbrev pub foreign_key_violation : Text
foreign_key_violation = codes "23503"

-- `DatabaseErrorCode.PURCHASE_OUTSIDE_SALE_WINDOW`
abbrev pub purchase_outside_sale_window : Text
purchase_outside_sale_window = codes "P1002"

-- The SQLSTATE with which a row is refused: the trigger runs before the row is stored, the unique
-- index as it is, and the reference to `sales` is checked after.
unfoldable pub refusal : Tables → PurchaseRow → Option Text
refusal t p =
    if outside_period (find_sale p.sale_id t.sales) p.purchased_at
    then some purchase_outside_sale_window
    else if any (is_purchase_of p.sale_id p.email) t.purchases
    then some unique_violation
    else if is_some (find_sale p.sale_id t.sales)
    then none
    else some foreign_key_violation
