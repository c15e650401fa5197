-- ===== src/Database/WriteBatch/Progress.antt =====
-- When a batch of packages/database/src/write-purchases.ts goes through: the throw for a short stock
-- is never reached while the entries of each sale are at most the stock that it has left.
use sd_flash_sale.Prelude.{
  ℕ, ◌+◌, ◌≤◌, ◌≡◌, refl, ap, true, false, ◌-◌, List, [], ◌∷◌, map, none, some, Text, text_eq,
  text_eq_refl, text_eq_iff, any, arith, inl, inr, Bool-cases, length, leb, All, All-map, count,
  if◌then◌else◌,
}
use sd_flash_sale.Prelude.Result.{Result, ok}
use sd_flash_sale.Database.Schema.{
  SaleRow, PurchaseRow, Tables, find_sale, is_purchase_of, outside_period,
}
use sd_flash_sale.Database.Server.{
  Postgres, Thrown, inserted_new, add_purchase, decremented, set_stock, also,
}
use sd_flash_sale.Database.Invariant.{find_sale-set_stock, with_stock}
use sd_flash_sale.Database.WriteBatch.{
  PurchaseWriteEntry, entry_row, identity, bump, count_by_sale, take_counts, batch_body,
  write_purchase_batch,
}
use sd_flash_sale.Database.WriteBatch.Balance.{times, held, held-count_by_sale}

-- A sale has at least this much stock.
abbrev HasStock : List SaleRow → Text → ℕ → Type 0
HasStock sales id n =
    (sale : SaleRow) × (find_sale id sales ≡ some sale) × (n ≤ sale.remaining_stock)

-- The row's sale is there, and the time is in its period.
abbrev pub IsTimely : Tables → PurchaseRow → Type 0
IsTimely t p =
    (sale : SaleRow) × (find_sale p.sale_id t.sales ≡ some sale)
    × (sale.starts_at ≤ p.purchased_at)
    × (p.purchased_at ≤ sale.ends_at)

abbrev IsSale : Tables → Text → Type 0
IsSale t id = (sale : SaleRow) × (find_sale id t.sales ≡ some sale)

record Stored (t : Tables) (ps : List PurchaseRow) (m : Result Thrown (Tables × List Text))
    : Type 0 where
  tables : Tables
  ids : List Text
  result : m ≡ ok (tables, ids)
  sales_same : tables.sales ≡ t.sales
  exist : All (IsSale t) ids
  few : (j : Text) → times j ids ≤ count (λ p. text_eq p.sale_id j) ps

inserted_new-Stored :
    (ps : List PurchaseRow) (t : Tables) → All (IsTimely t) ps → Stored t ps (inserted_new t ps)
unfolding inserted_new
inserted_new-Stored [] t h = record {
  tables = t;
  ids = [];
  result = refl;
  sales_same = refl;
  exist = tt;
  few = λ j. omega arith;
}
inserted_new-Stored (p ∷ ps) t h =
    let (sale, found, early, late) = h.0 in
    elim (Bool-cases (any (is_purchase_of p.sale_id p.email) t.purchases)) [
      | inl known ↦
          let rest = inserted_new-Stored ps t h.1 in
          record {
            tables = rest.tables;
            ids = rest.ids;
            result = rw (on_time sale found early late, known) rest.result;
            sales_same = rest.sales_same;
            exist = rest.exist;
            few = λ j. ground (arith, rest.few j);
          }
      | inr fresh ↦
          let rest = inserted_new-Stored ps (add_purchase t p) h.1 in
          record {
            tables = rest.tables;
            ids = p.sale_id ∷ rest.ids;
            result =
                rw (on_time sale found early late, fresh, found) (ap (also p.sale_id) rest.result);
            sales_same = rest.sales_same;
            exist = ((sale, found), rest.exist);
            few = λ j. ground (arith, rest.few j);
          }
    ]
  where
    on_time :
        (sale : SaleRow)
        → find_sale p.sale_id t.sales ≡ some sale
        → sale.starts_at ≤ p.purchased_at
        → p.purchased_at ≤ sale.ends_at
        → outside_period (find_sale p.sale_id t.sales) p.purchased_at ≡ false
    on_time sale found early late = rw found (ground arith)

All-bump {ℓ} :
    (P : Text → Type ℓ) (id : Text) (counts : List (Text × ℕ))
    → P id
    → All (λ (c : Text × ℕ). P c.0) counts
    → All (λ (c : Text × ℕ). P c.0) (bump id counts)
unfolding bump
All-bump P id [] p h = (p, tt)
All-bump P id ((j, n) ∷ counts) p h = elim (Bool-cases (text_eq j id)) [
  | inl same ↦ rw same h
  | inr differ ↦ rw differ (h.0, All-bump P id counts p h.1)
]

All-count_by_sale {ℓ} :
    (P : Text → Type ℓ) (counts : List (Text × ℕ)) (ids : List Text)
    → All P ids
    → All (λ (c : Text × ℕ). P c.0) counts
    → All (λ (c : Text × ℕ). P c.0) (count_by_sale counts ids)
unfolding count_by_sale
All-count_by_sale P counts [] h k = k
All-count_by_sale P counts (id ∷ ids) h k =
    All-count_by_sale P (bump id counts) ids h.1 (All-bump P id counts h.0 k)

module _ (pg : Postgres) where
  -- `decrement` on a sale that has the stock, and what the other sales then have.
  HasStock-set_stock :
      (sales : List SaleRow) (id j : Text) (n m : ℕ) (sale : SaleRow)
      → find_sale id sales ≡ some sale
      → HasStock sales j ((if text_eq id j then n else 0) + m)
      → HasStock (set_stock id (sale.remaining_stock - n) sales) j m
  HasStock-set_stock sales id j n m sale found (row, e, enough) = elim (Bool-cases (text_eq id j)) [
    | inl same ↦ (
      with_stock (sale.remaining_stock - n) sale,
      rw
          (
            find_sale-set_stock id j (sale.remaining_stock - n) sales,
            same,
            ← (text_eq_iff id j).0 same,
            found,
          )
          refl,
      ground (arith, text_eq_iff id j),
    )
    | inr differ ↦ (
      row,
      rw (find_sale-set_stock id j (sale.remaining_stock - n) sales, differ) e,
      ground arith,
    )
  ]

  pub take_counts-ok :
      (counts : List (Text × ℕ)) (t : Tables)
      → All (λ (c : Text × ℕ). HasStock t.sales c.0 (held c.0 counts)) counts
      → (u : Tables) × (take_counts pg counts t ≡ ok u)
  unfolding take_counts decremented
  take_counts-ok [] t h = (t, refl)
  take_counts-ok ((id, n) ∷ counts) t h =
      let (sale, found, enough) = h.0 in
      let next =
        take_counts-ok counts (record t { sales = set_stock id (sale.remaining_stock - n) t.sales })
          (All-map (λ c hc. HasStock-set_stock t.sales id c.0 n (held c.0 counts) sale found hc)
            counts h.1) in
      (
        next.0,
        rw (pg.decrement_law t id (leb n) n, decremented)
            (rw (found, decremented)
              (rw (test n (held id counts) sale enough, decremented) next.1)),
      )
    where
      test :
          (n m : ℕ) (sale : SaleRow)
          → (if text_eq id id then n else 0) + m ≤ sale.remaining_stock
          → leb n sale.remaining_stock ≡ true
      test n m sale h = ground (arith, text_eq_refl id)

  -- Entries of a sale, in a batch.
  abbrev pub wanted : Text → List PurchaseWriteEntry → ℕ
  wanted id = count (λ e. text_eq e.sale_id id)

  count-entry_row :
      (j : Text) (entries : List PurchaseWriteEntry)
      → count (λ p. text_eq p.sale_id j) (map (entry_row pg) entries) ≡ wanted j entries
  unfolding entry_row
  count-entry_row j [] = refl
  count-entry_row j (e ∷ entries) = ground (arith, count-entry_row j entries)

  pub batch_body-ok :
      (entries : List PurchaseWriteEntry) (t : Tables)
      → All (λ e. IsTimely t (entry_row pg e)) entries
      → ((id : Text) (sale : SaleRow)
          → find_sale id t.sales ≡ some sale
          → wanted id entries ≤ sale.remaining_stock)
      → (n : ℕ) × (u : Tables) × (batch_body pg entries t ≡ ok (n, u))
  unfolding batch_body
  batch_body-ok entries t timely room =
      let s = inserted_new-Stored (map (entry_row pg) entries) t (All-row entries timely) in
      let taken = take_counts-ok (count_by_sale [] s.ids) s.tables (
        All-map
          (λ c (sale, found). (
            sale,
            rw s.sales_same found,
            omega (
              arith,
              held-count_by_sale c.0 [] s.ids,
              s.few c.0,
              count-entry_row c.0 entries,
              room c.0 sale found,
            ),
          ))
          (count_by_sale [] s.ids) (All-count_by_sale (IsSale t) [] s.ids s.exist tt)) in
      (
        length s.ids,
        taken.0,
        rw (pg.insert_new_law t (map (entry_row pg) entries), s.result, taken.1) refl,
      )
    where
      All-row :
          (es : List PurchaseWriteEntry)
          → All (λ e. IsTimely t (entry_row pg e)) es
          → All (IsTimely t) (map (entry_row pg) es)
      All-row [] h = tt
      All-row (e ∷ es) h = (h.0, All-row es h.1)

  -- A batch is written, and its `Error` is not thrown, if its sales exist, its times are in their
  -- periods (the ends included), it wants no more of any sale than is left, and COMMIT succeeds.
  pub write_purchase_batch-ok :
      (entries : List PurchaseWriteEntry) (t : Tables)
      → All (λ e. IsTimely t (entry_row pg e)) entries
      → ((id : Text) (sale : SaleRow)
          → find_sale id t.sales ≡ some sale
          → wanted id entries ≤ sale.remaining_stock)
      → (n : ℕ) × (u : Tables) × (write_purchase_batch pg none entries t ≡ (ok n, u))
  unfolding write_purchase_batch
  write_purchase_batch-ok [] t timely room = (0, t, refl)
  write_purchase_batch-ok (e ∷ es) t timely room =
      let (n, u, done) = batch_body-ok (e ∷ es) t timely room in
      (n, u, pg.transaction_ok Thrown ℕ identity (batch_body pg (e ∷ es)) t u n done)
