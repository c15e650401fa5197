-- ===== src/LoadTest/Sale/Removed.antt =====
-- Removing the sale of a load test leaves nothing of it in the tables, and all that it did not make.
use sd_flash_sale.Prelude.{
  ◌≡◌, refl, sym, ap, ◌∙◌, Bool, true, false, not, ◌&&◌, List, [], ◌∷◌, map, Option, none, some,
  Text, text_eq, text_eq_refl, text_eq_iff, contains, any, any-select-not, select,
  select-all_others, arith, Bool-cases, inl, inr,
}
use sd_flash_sale.Prelude.Result.{ok}
use sd_flash_sale.Database.Schema.{ProductRow, SaleRow, PurchaseRow, Tables}
use sd_flash_sale.Database.Scripts.{PostgresScripts, deleted_sales, deleted_products}
use sd_flash_sale.LoadTest.Sale.{
  load_test_product_name, head, find_load_test_product, delete_purchases_of, delete_product,
  delete_load_test_rows,
}

abbrev pub is_load_test : ProductRow → Bool
is_load_test p = text_eq p.name load_test_product_name

abbrev pub of_product : Text → SaleRow → Bool
of_product id s = text_eq s.product_id id

abbrev pub ids_of : Text → List SaleRow → List Text
ids_of id sales = map (λ (s : SaleRow). s.id) (select (of_product id) sales)

-- The tables without a product, its sales and their purchases
abbrev pub without : ProductRow → Tables → Tables
without product t = record {
  products = select (λ p. not (text_eq p.id product.id)) t.products;
  sales = select (λ s. not (of_product product.id s)) t.sales;
  purchases = select (λ p. not (contains (ids_of product.id t.sales) p.sale_id)) t.purchases;
}

abbrev pub without_found : Tables → Option ProductRow → Tables
without_found t none = t
without_found t (some product) = without product t

-- The tables without the product of the load tests
abbrev pub emptied : Tables → Tables
emptied t = without_found t (head (select is_load_test t.products))

select-both :
    (ids : List Text) (id : Text) (ps : List PurchaseRow)
    → select (λ x. not (contains ids x.sale_id)) (select (λ x. not (text_eq x.sale_id id)) ps)
      ≡ select (λ x. not (contains (id ∷ ids) x.sale_id)) ps
unfolding contains
select-both ids id [] = refl
select-both ids id (x ∷ xs) = ground (arith, select-both ids id xs)

-- No sale that is left out is referred to, if no purchase is of one of their ids.
refers-none :
    (id : Text) (ps : List PurchaseRow) (sales : List SaleRow)
    → ((x : Text) → contains (ids_of id sales) x ≡ true → any (λ p. text_eq p.sale_id x) ps ≡ false)
    → any (λ s. of_product id s && any (λ p. text_eq p.sale_id s.id) ps) sales ≡ false
unfolding contains
refers-none id ps [] h = refl
refers-none id ps (s ∷ ss) h = elim (Bool-cases (of_product id s)) [
  | inl hit ↦
      rw (hit, h s.id (rw hit (ground (arith, text_eq_refl s.id))))
        (refers-none id ps ss (λ x listed. h x (rw hit (ground (arith, listed)))))
  | inr miss ↦ rw miss (refers-none id ps ss (λ x listed. h x (rw miss listed)))
]

refers-removed :
    (ids : List Text) (x : Text) (ps : List PurchaseRow)
    → contains ids x ≡ true
    → any (λ p. text_eq p.sale_id x) (select (λ p. not (contains ids p.sale_id)) ps) ≡ false
refers-removed ids x [] h = refl
refers-removed ids x (p ∷ ps) h = elim (Bool-cases (text_eq p.sale_id x)) [
  | inl same ↦
      let gone : contains ids p.sale_id ≡ true =
        ap (contains ids) ((text_eq_iff p.sale_id x).0 same) ∙ h in
      rw gone (refers-removed ids x ps h)
  | inr differ ↦ ground (arith, refers-removed ids x ps h, differ)
]

products-free :
    (id : Text) (sales : List SaleRow) (ps : List ProductRow)
    → any
        (λ p.
          text_eq p.id id
          && any (λ s. text_eq s.product_id p.id) (select (λ s. not (of_product id s)) sales))
        ps
      ≡ false
products-free id sales [] = refl
products-free id sales (p ∷ ps) = elim (Bool-cases (text_eq p.id id)) [
  | inl same ↦
      let free : any (λ s. text_eq s.product_id p.id) (select (λ s. not (of_product id s)) sales)
          ≡ false =
        ap (λ i. any (λ s. text_eq s.product_id i) (select (λ s. not (of_product id s)) sales))
          ((text_eq_iff p.id id).0 same)
        ∙ any-select-not (of_product id) sales in
      rw (same, free) (products-free id sales ps)
  | inr differ ↦ rw differ (products-free id sales ps)
]

module _ (db : PostgresScripts) where
  delete_purchases_of-select :
      (rows : List SaleRow) (t : Tables)
      → delete_purchases_of db rows t ≡ record t {
        purchases =
            select (λ p. not (contains (map (λ (s : SaleRow). s.id) rows) p.sale_id)) t.purchases;
      }
  unfolding delete_purchases_of contains
  delete_purchases_of-select [] t =
      ap (λ (ps : List PurchaseRow). record t { purchases = ps })
        (sym (select-all_others (λ p. contains [] p.sale_id) t.purchases (never t.purchases)))
    where
      never : (ps : List PurchaseRow) → any (λ p. contains [] p.sale_id) ps ≡ false
      never [] = refl
      never (p ∷ ps) = never ps
  delete_purchases_of-select (s ∷ ss) t =
      rw (db.delete_purchases_law t (λ p. text_eq p.sale_id s.id)) (
        delete_purchases_of-select ss _
        ∙ ap (λ (ps : List PurchaseRow). record t { purchases = ps })
            (select-both (map (λ (x : SaleRow). x.id) ss) s.id t.purchases))

  pub delete_product-without :
      (product : ProductRow) (t : Tables)
      → delete_product db product t ≡ ok (ids_of product.id t.sales, without product t)
  unfolding delete_product deleted_sales deleted_products
  delete_product-without product t =
      let ids = ids_of product.id t.sales in
      let left : List PurchaseRow = select (λ p. not (contains ids p.sale_id)) t.purchases in
      let free =
        refers-none product.id left t.sales (λ x listed. refers-removed ids x t.purchases listed) in
      let bought : Tables = record t { purchases = left } in
      let sales_left = db.delete_sales_law bought (of_product product.id) in
      let stocked : Tables = record bought {
        sales = select (λ s. not (of_product product.id s)) t.sales;
      } in
      let products_left = db.delete_products_law stocked (λ p. text_eq p.id product.id) in
      rw
        (
          db.sales_where_law t (of_product product.id),
          delete_purchases_of-select (select (of_product product.id) t.sales) t,
          sales_left,
          free,
          products_left,
          products-free product.id t.sales t.products,
        )
        refl

  delete_load_test_rows-found :
      (t : Tables) (found : Option ProductRow)
      → head (select is_load_test t.products) ≡ found
      → (ids : List Text) × (delete_load_test_rows db t ≡ ok (ids, without_found t found))
  unfolding delete_load_test_rows find_load_test_product
  delete_load_test_rows-found t none h = (
    [],
    rw (delete_load_test_rows, find_load_test_product, db.products_where_law t is_load_test, h)
        refl,
  )
  delete_load_test_rows-found t (some p) h = (
    ids_of p.id t.sales,
    rw (delete_load_test_rows, find_load_test_product, db.products_where_law t is_load_test, h)
        (delete_product-without p t),
  )

  pub delete_load_test_rows-emptied :
      (t : Tables) → (ids : List Text) × (delete_load_test_rows db t ≡ ok (ids, emptied t))
  delete_load_test_rows-emptied t =
      delete_load_test_rows-found t (head (select is_load_test t.products)) refl
