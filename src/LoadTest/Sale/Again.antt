-- ===== src/LoadTest/Sale/Again.antt =====
-- The clean-up after a load test undoes its preparation and what was bought in between.
use sd_flash_sale.Prelude.{
  ℕ, ◌≤◌, ◌≡◌, refl, sym, ap, ap₂, ◌∙◌, Bool, true, false, not, List, [], ◌∷◌, ◌++◌, Option, none,
  some, Text, text_eq, text_eq_refl, contains, count, any, any-select, any-count_zero, select,
  select-none, select-all_others, All, arith, Bool-cases, inl, inr,
}
use sd_flash_sale.Prelude.Result.{ok}
use sd_flash_sale.Database.Schema.{ProductRow, SaleRow, PurchaseRow, Tables, sale_checks}
use sd_flash_sale.Database.Server.{set_stock}
use sd_flash_sale.Database.Scripts.{PostgresScripts, inserted_sale}
use sd_flash_sale.LoadTest.Sale.{
  load_test_product_name, head, find_load_test_product, delete_load_test_rows, load_test_product,
  load_test_sale, create_load_test_sale,
}
use sd_flash_sale.LoadTest.Sale.Removed.{
  is_load_test, of_product, ids_of, without, without_found, emptied, delete_product-without,
  delete_load_test_rows-emptied,
}

-- Of the products, at most one bears the name of the load tests.
one-removed :
    (p : ProductRow) (ps : List ProductRow)
    → head (select is_load_test ps) ≡ some p
    → count is_load_test ps ≤ 1
    → any is_load_test (select (λ x. not (text_eq x.id p.id)) ps) ≡ false
one-removed p [] h one = refl
one-removed p (x ∷ xs) h one = elim (Bool-cases (is_load_test x)) [
  | inl named ↦
      let same : x ≡ p = cc (rw named at h) in
      let rest : any is_load_test xs ≡ false =
        any-count_zero is_load_test xs (ground (arith, rw named at one)) in
      let gone : text_eq x.id p.id ≡ true =
        ap (λ (y : ProductRow). text_eq x.id y.id) (sym same) ∙ text_eq_refl x.id in
      rw gone (any-select is_load_test (λ y. not (text_eq y.id p.id)) xs rest)
  | inr other ↦
      let rest = one-removed p xs (rw other at h) (rw other at one) in ground (arith, rest, other)
]

head-none {ℓ} :
    {A : Type ℓ} (p : A → Bool) (xs : List A) → head (select p xs) ≡ none → any p xs ≡ false
head-none p [] h = refl
head-none p (x ∷ xs) h = elim (Bool-cases (p x)) [
  | inl hit ↦ absurd (cc (rw hit at h))
  | inr miss ↦ rw miss (head-none p xs (rw miss at h))
]

emptied-none :
    (t : Tables) (found : Option ProductRow)
    → head (select is_load_test t.products) ≡ found
    → count is_load_test t.products ≤ 1
    → any is_load_test (without_found t found).products ≡ false
emptied-none t none h one = head-none is_load_test t.products h
emptied-none t (some p) h one = one-removed p t.products h one

-- What a test leaves: purchases of the sale, and some of its stock
abbrev pub tested : Text → List PurchaseRow → ℕ → Tables → Tables
tested id ps left u = record u { sales = set_stock id left u.sales; purchases = ps ++ u.purchases }

select-no_purchase :
    (id : Text) (rest : List PurchaseRow)
    → any (λ p. text_eq p.sale_id id) rest ≡ false
    → select (λ p. not (contains (id ∷ []) p.sale_id)) rest ≡ rest
unfolding contains
select-no_purchase id [] fresh = refl
select-no_purchase id (p ∷ ps) fresh = ground (arith, select-no_purchase id ps)

select-only_rest :
    (id : Text) (ps rest : List PurchaseRow)
    → All (λ (p : PurchaseRow). text_eq p.sale_id id ≡ true) ps
    → any (λ p. text_eq p.sale_id id) rest ≡ false
    → select (λ p. not (contains (id ∷ []) p.sale_id)) (ps ++ rest) ≡ rest
unfolding contains
select-only_rest id [] rest h fresh = select-no_purchase id rest fresh
select-only_rest id (p ∷ ps) rest h fresh =
    ground (arith, select-only_rest id ps rest h.1 fresh, h.0)

module _ (db : PostgresScripts) where
  abbrev pub next_product : Tables → ProductRow
  next_product c = load_test_product db (db.new_product_id c)

  abbrev pub next_sale_id : Tables → Text
  next_sale_id c = db.new_sale_id (db.insert_product c (next_product c))

  -- The ids that the database makes for the next rows are those of no other row.
  pub record IsFresh (c : Tables) : Type 0 where
    pub product_new : any (λ p. text_eq p.id (next_product c).id) c.products ≡ false
    pub product_unused : any (of_product (next_product c).id) c.sales ≡ false
    pub sale_unused : any (λ p. text_eq p.sale_id (next_sale_id c)) c.purchases ≡ false

  -- The rows of the test
  abbrev created : ℕ → ℕ → Tables → Tables
  created total_stock now c = record c {
    products = next_product c ∷ c.products;
    sales = load_test_sale db (next_sale_id c) (next_product c).id total_stock now ∷ c.sales;
  }

  insert_both :
      (product : ProductRow) (sale : SaleRow) (c : Tables)
      → sale_checks sale ≡ true
      → text_eq product.id sale.product_id ≡ true
      → db.insert_sale (db.insert_product c product) sale
        ≡ ok (record c { products = product ∷ c.products; sales = sale ∷ c.sales })
  unfolding inserted_sale
  insert_both product sale c checked of_it = rw (db.insert_product_law c product) (
      db.insert_sale_law (record c { products = product ∷ c.products }) sale
      ∙ rw (checked, of_it) refl)

  create-created :
      (total_stock now : ℕ) (t : Tables)
      → create_load_test_sale db total_stock now t
        ≡ ok (
          (
            (next_product (emptied t)).id,
            load_test_sale db
                (next_sale_id (emptied t))
                (next_product (emptied t)).id
                total_stock
                now,
          ),
          created total_stock now (emptied t),
        )
  unfolding create_load_test_sale inserted_sale
  create-created total_stock now t =
      let (ids, done) = delete_load_test_rows-emptied db t in
      let c = emptied t in
      let sale = load_test_sale db (next_sale_id c) (next_product c).id total_stock now in
      let checked : sale_checks sale ≡ true = ground arith in
      rw (done, insert_both (next_product c) sale c checked (text_eq_refl (next_product c).id)) refl

  removed :
      (product : ProductRow) (sale : SaleRow) (ps : List PurchaseRow) (c : Tables)
      → text_eq sale.product_id product.id ≡ true
      → any (λ p. text_eq p.id product.id) c.products ≡ false
      → any (of_product product.id) c.sales ≡ false
      → any (λ p. text_eq p.sale_id sale.id) c.purchases ≡ false
      → All (λ (p : PurchaseRow). text_eq p.sale_id sale.id ≡ true) ps
      → let u : Tables = record {
        products = product ∷ c.products;
        sales = sale ∷ c.sales;
        purchases = ps ++ c.purchases;
      } in
        (ids_of product.id u.sales ≡ sale.id ∷ []) × (without product u ≡ c)
  removed product sale ps c of_it no_product no_sale no_purchase bought = (
    rw (of_it, select-none (of_product product.id) c.sales no_sale) refl,
    rw
        (
          of_it,
          text_eq_refl product.id,
          select-none (of_product product.id) c.sales no_sale,
          select-all_others (λ p. text_eq p.id product.id) c.products no_product,
          select-all_others (of_product product.id) c.sales no_sale,
          select-only_rest sale.id ps c.purchases bought no_purchase,
        )
        refl,
  )

  delete-created :
      (total_stock now left : ℕ) (ps : List PurchaseRow) (c : Tables)
      → any is_load_test c.products ≡ false
      → IsFresh c
      → All (λ (p : PurchaseRow). text_eq p.sale_id (next_sale_id c) ≡ true) ps
      → delete_load_test_rows db (tested (next_sale_id c) ps left (created total_stock now c))
        ≡ ok (next_sale_id c ∷ [], c)
  unfolding delete_load_test_rows find_load_test_product set_stock
  delete-created total_stock now left ps c none_named fresh bought =
      let product = next_product c in
      let sale : SaleRow = record (load_test_sale db (next_sale_id c) product.id total_stock now) {
        remaining_stock = left;
      } in
      let u : Tables = record {
        products = product ∷ c.products;
        sales = sale ∷ c.sales;
        purchases = ps ++ c.purchases;
      } in
      rw (text_eq_refl (next_sale_id c)) (
        rw
          (
            delete_load_test_rows,
            find_load_test_product,
            db.products_where_law u is_load_test,
            text_eq_refl load_test_product_name,
          )
          (let (same_ids, same_tables) =
              removed product sale ps c (text_eq_refl product.id) fresh.product_new
                fresh.product_unused fresh.sale_unused bought in
            delete_product-without db product u ∙ ap₂ (λ ids t. ok (ids, t)) same_ids same_tables))

  -- Of tables with at most one product that bears the name of the load tests, if the ids that the
  -- database makes for the next rows are new: preparing a load test succeeds, and after it, whatever is
  -- bought of its sale and whatever its stock is then, the clean-up succeeds, names that sale as
  -- the one it deleted, and leaves the tables as a clean-up before the preparation would have.
  pub clean_up-undoes_create :
      (t : Tables) (total_stock now left : ℕ) (ps : List PurchaseRow)
      → count is_load_test t.products ≤ 1
      → IsFresh (emptied t)
      → All (λ (p : PurchaseRow). text_eq p.sale_id (next_sale_id (emptied t)) ≡ true) ps
      → (ids : List Text) × (product_id : Text) × (sale : SaleRow) × (u : Tables)
        × (delete_load_test_rows db t ≡ ok (ids, emptied t))
        × (create_load_test_sale db total_stock now t ≡ ok ((product_id, sale), u))
        × (sale.remaining_stock ≡ total_stock)
        × (delete_load_test_rows db (tested sale.id ps left u) ≡ ok (sale.id ∷ [], emptied t))
  clean_up-undoes_create t total_stock now left ps one fresh bought =
      let (ids, done) = delete_load_test_rows-emptied db t in
      let none_named = emptied-none t (head (select is_load_test t.products)) refl one in
      (
        ids,
        _,
        _,
        _,
        done,
        create-created total_stock now t,
        refl,
        delete-created total_stock now left ps (emptied t) none_named fresh bought,
      )
