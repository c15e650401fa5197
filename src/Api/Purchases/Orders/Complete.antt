-- ===== src/Api/Purchases/Orders/Complete.antt =====
-- The purchases that a buyer is shown.
use sd_flash_sale.Prelude.{
  ℕ, ◌≤◌, ◌≡◌, refl, ◌∙◌, Bool, ◌&&◌, List, [], ◌∷◌, map, Text, text_eq, count, count-append,
  select, All, if◌then◌else◌, arith, Bool-cases, inl, inr,
}
use sd_flash_sale.Contract.{PurchaseRecord}
use sd_flash_sale.Database.Schema.{ProductRow, SaleRow, PurchaseRow, Tables, is_purchase_of}
use sd_flash_sale.Api.Purchases.Orders.{
  JoinedPurchase, join_products, join_sales, joined_purchases, desc, IsOrdered, PurchaseQueries,
  purchase_record, purchases_query, find_by_email,
}

-- The keys: one sale for each purchase, and one product for each sale
abbrev pub IsReferring : Tables → Type 0
IsReferring t =
    All (λ (p : PurchaseRow). count (λ (s : SaleRow). text_eq p.sale_id s.id) t.sales ≡ 1)
      t.purchases
    × All (λ (s : SaleRow). count (λ (r : ProductRow). text_eq s.product_id r.id) t.products ≡ 1)
        t.sales

-- No entry is greater than one before it.
abbrev pub IsDescending {ℓ} : {A : Type ℓ} → (A → ℕ) → List A → Type 0
IsDescending key [] = Unit
IsDescending key (x ∷ []) = Unit
IsDescending key (x ∷ y ∷ xs) = (key y ≤ key x) × IsDescending key (y ∷ xs)

-- The rows of a join whose purchase passes a test
module _ (f : PurchaseRow → Bool) (on_sale : PurchaseRow → SaleRow → Bool)
    (on_product : SaleRow → ProductRow → Bool) where
  count-join_products :
      (p : PurchaseRow) (s : SaleRow) (rs : List ProductRow)
      → count (λ (j : JoinedPurchase). f j.purchase) (join_products on_product p s rs)
        ≡ (if f p then count (on_product s) rs else 0)
  count-join_products p s [] = ground arith
  count-join_products p s (r ∷ rs) = ground (arith, count-join_products p s rs)

  count-join_sales :
      (products : List ProductRow) (p : PurchaseRow) (ss : List SaleRow)
      → All (λ (s : SaleRow). count (on_product s) products ≡ 1) ss
      → count (λ (j : JoinedPurchase). f j.purchase) (join_sales on_sale on_product products p ss)
        ≡ (if f p then count (on_sale p) ss else 0)
  count-join_sales products p [] h = ground arith
  count-join_sales products p (s ∷ ss) (one, later) = ground (
    arith,
    one,
    count-join_sales products p ss later,
    count-join_products p s products,
    count-append (λ (j : JoinedPurchase). f j.purchase) (join_products on_product p s products)
        (join_sales on_sale on_product products p ss),
  )

  count-joined_purchases :
      (w : PurchaseRow → Bool) (t : Tables) (ps : List PurchaseRow)
      → All (λ (s : SaleRow). count (on_product s) t.products ≡ 1) t.sales
      → All (λ (p : PurchaseRow). count (on_sale p) t.sales ≡ 1) ps
      → count
          (λ (j : JoinedPurchase). f j.purchase)
          (joined_purchases on_sale on_product t (select w ps))
        ≡ count (λ p. f p && w p) ps
  unfolding joined_purchases
  count-joined_purchases w t [] products sales = refl
  count-joined_purchases w t (p ∷ ps) products (one, later) =
      let rest = count-joined_purchases w t ps products later in
      elim (Bool-cases (w p)) [
        | inl chosen ↦ rw chosen (
            ground (
              arith,
              one,
              rest,
              count-join_sales t.products p t.sales products,
              count-append (λ (j : JoinedPurchase). f j.purchase)
                  (join_sales on_sale on_product t.products p t.sales)
                  (joined_purchases on_sale on_product t (select w ps)),
            ))
        | inr other ↦ rw other (ground (arith, rest))
      ]

count-map :
    (q : PurchaseRecord → Bool) (js : List JoinedPurchase)
    → count q (map purchase_record js) ≡ count (λ j. q (purchase_record j)) js
count-map q [] = refl
count-map q (j ∷ js) = ground (arith, count-map q js)

IsDescending-map :
    (js : List JoinedPurchase)
    → IsOrdered desc (λ j. j.purchase.purchased_at) js
    → IsDescending (λ (p : PurchaseRecord). p.purchased_at) (map purchase_record js)
IsDescending-map [] h = tt
IsDescending-map (j ∷ []) h = tt
IsDescending-map (j ∷ k ∷ js) (first, later) =
    (ground (arith, first), IsDescending-map (k ∷ js) later)

-- If each purchase has exactly one sale and each sale exactly one product: a buyer is shown, of each sale, as
-- many purchases as the tables hold for that address without regard to letter case, and the latest come first.
pub find_by_email_complete :
    (db : PurchaseQueries) (t : Tables) (id email : Text)
    → IsReferring t
    → let records = find_by_email db t email in
      (count (λ (p : PurchaseRecord). text_eq p.sale_id id) records
        ≡ count (is_purchase_of id email) t.purchases)
      × IsDescending (λ (p : PurchaseRecord). p.purchased_at) records
unfolding find_by_email purchases_query
find_by_email_complete db t id email (sales, products) =
    let query = purchases_query email in
    (
      count-map (λ p. text_eq p.sale_id id) (db.answer query t)
          ∙ (db.answer_rows query t (λ j. text_eq j.purchase.sale_id id)
              ∙ count-joined_purchases (λ p. text_eq p.sale_id id) query.on_sale query.on_product
                  query.where_purchase t t.purchases products sales),
      IsDescending-map (db.answer query t) (db.answer_order query t),
    )
