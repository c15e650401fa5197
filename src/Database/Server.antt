-- ===== src/Database/Server.antt =====
-- PostgreSQL through drizzle-orm, as far as the program uses them: an interface of the statements that
-- it sends, with what they are documented to do to the tables. A transaction sees no other one's
-- statements between its own; what runs side by side is some order of whole transactions.
use sd_flash_sale.Prelude.{
  ℕ, ◌-◌, ◌≡◌, Bool, true, false, List, [], ◌∷◌, ◌++◌, Option, none, some, Text, text_eq,
  if◌then◌else◌, any, select,
}
use sd_flash_sale.Prelude.Result.{Result, ok, throws}
use sd_flash_sale.Database.Schema.{
  ProductRow, SaleRow, PurchaseRow, Tables, find_sale, is_purchase_of, outside_period, refusal,
  purchase_outside_sale_window, foreign_key_violation,
}

-- A thrown JavaScript value: no object, or an object with its `code`, if that is a string, and with
-- or without a `cause`.
pub data Thrown : Type 0 where
  primitive : Thrown
  object : Option Text → Thrown
  caused : Option Text → Thrown → Thrown

-- A COMMIT that throws: the transaction was rolled back, or it was stored and the reply was lost.
pub data CommitFault : Type 0 where
  rolled_back unanswered : Thrown → CommitFault

-- What COMMIT throws, if it does, of a transaction that is rolled back then
abbrev pub fails : Option Thrown → Option CommitFault
fails none = none
fails (some e) = some (rolled_back e)

abbrev pub is_unanswered : Option CommitFault → Bool
is_unanswered (some (unanswered e)) = true
is_unanswered _ = false

-- drizzle-orm wraps the driver's error, which bears the SQLSTATE.
abbrev pub query_error : Text → Thrown
query_error sqlstate = caused none (object (some sqlstate))

unfoldable pub set_stock : Text → ℕ → List SaleRow → List SaleRow
set_stock id n [] = []
set_stock id n (row ∷ rows) =
    if text_eq row.id id
    then record row { remaining_stock = n } ∷ rows
    else row ∷ set_stock id n rows

abbrev pub add_purchase : Tables → PurchaseRow → Tables
add_purchase t p = record t { purchases = p ∷ t.purchases }

-- INSERT of one row
unfoldable pub inserted : Tables → PurchaseRow → Result Thrown Tables
inserted t p = elim (refusal t p) [
  | none ↦ ok (add_purchase t p)
  | some sqlstate ↦ throws (query_error sqlstate)
]

abbrev pub also : Text → Result Thrown (Tables × List Text) → Result Thrown (Tables × List Text)
also id (ok (t, ids)) = ok (t, id ∷ ids)
also id (throws e) = throws e

-- INSERT of several rows ON CONFLICT DO NOTHING, returning the sale of each row that was stored. A
-- row that conflicts with a stored one, or with an earlier one of the statement, is skipped.
unfoldable pub inserted_new : Tables → List PurchaseRow → Result Thrown (Tables × List Text)
inserted_new t [] = ok (t, [])
inserted_new t (p ∷ ps) =
    let skip = inserted_new t ps in
    let keep = also p.sale_id (inserted_new (add_purchase t p) ps) in
    if outside_period (find_sale p.sale_id t.sales) p.purchased_at
    then throws (query_error purchase_outside_sale_window)
    else if any (is_purchase_of p.sale_id p.email) t.purchases
    then skip
    else elim (find_sale p.sale_id t.sales) [
      | none ↦ throws (query_error foreign_key_violation)
      | some sale ↦ keep
    ]

-- UPDATE sales SET remaining_stock = remaining_stock - n WHERE id = … AND test(remaining_stock)
-- RETURNING remaining_stock
unfoldable pub decremented : Tables → Text → (ℕ → Bool) → ℕ → Tables × Option ℕ
decremented t id test n = elim (find_sale id t.sales) [
  | none ↦ (t, none)
  | some sale ↦
      let left = sale.remaining_stock - n in
      if test sale.remaining_stock
      then (record t { sales = set_stock id left t.sales }, some left)
      else (t, none)
]

-- A row of sales INNER JOIN products ON sales.product_id = products.id
pub record JoinedSale : Type 0 where
  pub sale : SaleRow
  pub product : ProductRow

unfoldable pub find_product : Text → List ProductRow → Option ProductRow
find_product id [] = none
find_product id (row ∷ rows) = if text_eq row.id id then some row else find_product id rows

unfoldable pub join_product : SaleRow → Option ProductRow → List JoinedSale
join_product sale none = []
join_product sale (some product) = record { sale = sale; product = product } ∷ []

unfoldable pub selected_sales : List ProductRow → List SaleRow → (SaleRow → Bool) → List JoinedSale
unfolding join_product find_product
selected_sales products [] where_sale = []
selected_sales products (sale ∷ sales) where_sale =
    (if where_sale sale then join_product sale (find_product sale.product_id products) else [])
    ++ selected_sales products sales where_sale

-- What a transaction's body throws: the program's own error, or the database's.
abbrev pub Body : Type 0 → Type 0 → Type 0
Body E A = Tables → Result E (A × Tables)

pub record Postgres : Type 1 where
  -- `gen_random_uuid()`, for the row of this sale and address
  pub new_id : Text → Text → Text
  pub insert : Tables → PurchaseRow → Result Thrown Tables
  pub insert_new : Tables → List PurchaseRow → Result Thrown (Tables × List Text)
  pub decrement : Tables → Text → (ℕ → Bool) → ℕ → Tables × Option ℕ
  -- SELECT … FROM sales INNER JOIN products … WHERE …
  pub select_sales : Tables → (SaleRow → Bool) → List JoinedSale
  -- SELECT … FROM sales WHERE …, and FROM purchases
  pub sales_where : Tables → (SaleRow → Bool) → List SaleRow
  pub purchases_where : Tables → (PurchaseRow → Bool) → List PurchaseRow
  -- The fourth argument is the fault of COMMIT, if it throws.
  pub transaction :
      (E A : Type 0) → (Thrown → E) → Option CommitFault → Body E A → Tables → Result E A × Tables
  pub insert_law : (t : Tables) (p : PurchaseRow) → insert t p ≡ inserted t p
  pub insert_new_law : (t : Tables) (ps : List PurchaseRow) → insert_new t ps ≡ inserted_new t ps
  pub decrement_law :
      (t : Tables) (id : Text) (test : ℕ → Bool) (n : ℕ)
      → decrement t id test n ≡ decremented t id test n
  pub select_sales_law :
      (t : Tables) (test : SaleRow → Bool)
      → select_sales t test ≡ selected_sales t.products t.sales test
  pub sales_where_law :
      (t : Tables) (test : SaleRow → Bool) → sales_where t test ≡ select test t.sales
  pub purchases_where_law :
      (t : Tables) (test : PurchaseRow → Bool) → purchases_where t test ≡ select test t.purchases
  -- A body that throws is rolled back, and so is one whose COMMIT fails; what was stored stays, whether or
  -- not the reply to COMMIT arrives.
  pub transaction_ok :
      (E A : Type 0) (lift : Thrown → E) (body : Body E A) (t u : Tables) (a : A)
      → body t ≡ ok (a, u)
      → transaction E A lift none body t ≡ (ok a, u)
  pub transaction_throws :
      (E A : Type 0) (lift : Thrown → E) (commit : Option CommitFault) (body : Body E A)
      (t : Tables) (e : E)
      → body t ≡ throws e
      → transaction E A lift commit body t ≡ (throws e, t)
  pub transaction_fails :
      (E A : Type 0) (lift : Thrown → E) (e : Thrown) (body : Body E A) (t u : Tables) (a : A)
      → body t ≡ ok (a, u)
      → transaction E A lift (some (rolled_back e)) body t ≡ (throws (lift e), t)
  pub transaction_unanswered :
      (E A : Type 0) (lift : Thrown → E) (e : Thrown) (body : Body E A) (t u : Tables) (a : A)
      → body t ≡ ok (a, u)
      → transaction E A lift (some (unanswered e)) body t ≡ (throws (lift e), u)
