-- ===== src/Api/Purchases/Orders.antt =====
-- `findByEmail` of apps/api/src/purchases/purchases.service.ts: a buyer's purchases.
pub mod Complete
use sd_flash_sale.Prelude.{
  ℕ, ◌≡◌, Bool, true, List, [], ◌∷◌, ◌++◌, map, Text, text_eq, count, select, leb, if◌then◌else◌,
}
use sd_flash_sale.Contract.{Product, PurchaseRecord}
use sd_flash_sale.Database.Schema.{ProductRow, SaleRow, PurchaseRow, Tables, citext_eq}

-- A row of purchases INNER JOIN sales INNER JOIN products
pub record JoinedPurchase : Type 0 where
  pub purchase : PurchaseRow
  pub sale : SaleRow
  pub product : ProductRow

-- FROM … INNER JOIN … ON …, of which `on_sale` and `on_product` are the two conditions
abbrev pub join_products :
    (SaleRow → ProductRow → Bool) → PurchaseRow → SaleRow → List ProductRow → List JoinedPurchase
join_products on_product p s [] = []
join_products on_product p s (r ∷ rs) =
    let rest = join_products on_product p s rs in
    if on_product s r then record { purchase = p; sale = s; product = r } ∷ rest else rest

abbrev pub join_sales :
    (PurchaseRow → SaleRow → Bool)
    → (SaleRow → ProductRow → Bool)
    → List ProductRow
    → PurchaseRow
    → List SaleRow
    → List JoinedPurchase
join_sales on_sale on_product products p [] = []
join_sales on_sale on_product products p (s ∷ ss) =
    let rest = join_sales on_sale on_product products p ss in
    if on_sale p s then join_products on_product p s products ++ rest else rest

unfoldable pub joined_purchases :
    (PurchaseRow → SaleRow → Bool)
    → (SaleRow → ProductRow → Bool)
    → Tables
    → List PurchaseRow
    → List JoinedPurchase
joined_purchases on_sale on_product t [] = []
joined_purchases on_sale on_product t (p ∷ ps) =
    join_sales on_sale on_product t.products p t.sales ++ joined_purchases on_sale on_product t ps

-- `asc` and `desc`
pub data Direction : Type 0 where
  asc desc : Direction

abbrev pub in_order : Direction → ℕ → ℕ → Bool
in_order asc a b = leb a b
in_order desc a b = leb b a

abbrev pub IsOrdered {ℓ} : {A : Type ℓ} → Direction → (A → ℕ) → List A → Type 0
IsOrdered direction key [] = Unit
IsOrdered direction key (x ∷ []) = Unit
IsOrdered direction key (x ∷ y ∷ xs) =
    (in_order direction (key x) (key y) ≡ true) × IsOrdered direction key (y ∷ xs)

-- The clauses of the query that the program builds with drizzle-orm
pub record Query : Type 0 where
  pub on_sale : PurchaseRow → SaleRow → Bool
  pub on_product : SaleRow → ProductRow → Bool
  pub where_purchase : PurchaseRow → Bool
  pub direction : Direction
  pub order_key : JoinedPurchase → ℕ

-- What the database answers to a query: the joined rows that meet its condition, in the order that it asks
-- for, and in any order where the keys are equal.
pub record PurchaseQueries : Type 0 where
  pub answer : Query → Tables → List JoinedPurchase
  pub answer_rows :
      (query : Query) (t : Tables) (q : JoinedPurchase → Bool)
      → count q (answer query t)
        ≡ count q (
            joined_purchases query.on_sale query.on_product t
              (select query.where_purchase t.purchases))
  pub answer_order :
      (query : Query) (t : Tables) → IsOrdered query.direction query.order_key (answer query t)

abbrev pub purchase_record : JoinedPurchase → PurchaseRecord
purchase_record row = record {
  id = row.purchase.id;
  sale_id = row.purchase.sale_id;
  product = record {
    id = row.product.id;
    name = row.product.name;
    description = row.product.description;
    image_url = row.product.image_url;
    price = row.product.price;
  };
  email = row.purchase.email;
  price = row.sale.sale_price;
  purchased_at = row.purchase.purchased_at;
}

unfoldable pub purchases_query : Text → Query
purchases_query email = record {
  on_sale = λ p s. text_eq p.sale_id s.id;
  on_product = λ s r. text_eq s.product_id r.id;
  where_purchase = λ p. citext_eq p.email email;
  direction = desc;
  order_key = λ j. j.purchase.purchased_at;
}

unfoldable pub find_by_email : PurchaseQueries → Tables → Text → List PurchaseRecord
unfolding purchases_query
find_by_email db t email = map purchase_record (db.answer (purchases_query email) t)
