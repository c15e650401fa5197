-- ===== src/Database/WriteBatch/Complete.antt =====
-- A batch of packages/database/src/write-purchases.ts whose purchases are all new is written whole.
use sd_flash_sale.Prelude.{
  ℕ, ◌+◌, ◌≤◌, ◌≡◌, refl, sym, ap, ◌∙◌, subst, false, Bool, ◌-◌, List, [], ◌∷◌, map, some, Text,
  text_eq, any, arith, inl, inr, Bool-cases, Option-cases, length, leb, All, count,
}
use sd_flash_sale.Prelude.Result.{Result, ok, throws, ◌>>=◌}
use sd_flash_sale.Database.Schema.{
  SaleRow, PurchaseRow, Tables, find_sale, is_purchase_of, outside_period,
}
use sd_flash_sale.Database.Server.{
  Postgres, Thrown, inserted_new, also, add_purchase, decremented, set_stock,
}
use sd_flash_sale.Database.Invariant.{find_sale-set_stock, with_stock}
use sd_flash_sale.Database.WriteBatch.{
  PurchaseWriteEntry, entry_row, count_by_sale, take_counts, batch_body,
}
use sd_flash_sale.Database.WriteBatch.Progress.{IsTimely, wanted, batch_body-ok}

-- No purchase of the list is in the tables or earlier in the list.
abbrev pub IsNew : Tables → List PurchaseRow → Type 0
IsNew t [] = Unit
IsNew t (p ∷ ps) =
    (any (is_purchase_of p.sale_id p.email) t.purchases ≡ false) × IsNew (add_purchase t p) ps

abbrev pub add_all : Tables → List PurchaseRow → Tables
add_all t [] = t
add_all t (p ∷ ps) = add_all (add_purchase t p) ps

add_all-sales : (ps : List PurchaseRow) (t : Tables) → (add_all t ps).sales ≡ t.sales
add_all-sales [] t = refl
add_all-sales (p ∷ ps) t = add_all-sales ps (add_purchase t p)

pub count-add_all :
    (q : PurchaseRow → Bool) (ps : List PurchaseRow) (t : Tables)
    → count q (add_all t ps).purchases ≡ count q t.purchases + count q ps
count-add_all q [] t = omega arith
count-add_all q (p ∷ ps) t = ground (arith, count-add_all q ps (add_purchase t p))

abbrev sale_ids : List PurchaseRow → List Text
sale_ids = map (λ p. p.sale_id)

inserted_new-add_all :
    (ps : List PurchaseRow) (t : Tables)
    → All (IsTimely t) ps
    → IsNew t ps
    → inserted_new t ps ≡ ok (add_all t ps, sale_ids ps)
unfolding inserted_new
inserted_new-add_all [] t timely new = refl
inserted_new-add_all (p ∷ ps) t timely new =
    let (sale, found, early, late) = timely.0 in
    let on_time : outside_period (find_sale p.sale_id t.sales) p.purchased_at ≡ false =
      rw found (ground arith) in
    rw (on_time, new.0, found)
      (ap (also p.sale_id) (inserted_new-add_all ps (add_purchase t p) timely.1 new.1))

-- Every sale is still there, with the same row but for its stock.
abbrev pub IsKept : List SaleRow → List SaleRow → Type 0
IsKept sales sales' =
    (id : Text) (sale : SaleRow)
    → find_sale id sales ≡ some sale
    → (m : ℕ) × (find_sale id sales' ≡ some (with_stock m sale))

IsKept-set_stock : (id : Text) (n : ℕ) (sales : List SaleRow) → IsKept sales (set_stock id n sales)
IsKept-set_stock id n sales j sale found = elim (Bool-cases (text_eq id j)) [
  | inl same ↦ (n, rw (find_sale-set_stock id j n sales, same, found) refl)
  | inr differ ↦ (sale.remaining_stock, rw (find_sale-set_stock id j n sales, differ) found)
]

IsKept-trans : (a b c : List SaleRow) → IsKept a b → IsKept b c → IsKept a c
IsKept-trans a b c h k id sale found =
    let (m, there) = h id sale found in
    let (n, then_there) = k id (with_stock m sale) there in (n, then_there)

module _ (pg : Postgres) where
  abbrev IfTaken : Tables → Result Thrown Tables → Type 0
  IfTaken t (ok u) = (u.purchases ≡ t.purchases) × IsKept t.sales u.sales
  IfTaken t (throws e) = Unit

  take_counts-IfTaken :
      (counts : List (Text × ℕ)) (t : Tables) → IfTaken t (take_counts pg counts t)
  unfolding take_counts decremented
  take_counts-IfTaken [] t = (refl, λ id sale found. (sale.remaining_stock, found))
  take_counts-IfTaken ((id, n) ∷ counts) t =
      rw (pg.decrement_law t id (leb n) n) (elim (Option-cases (find_sale id t.sales)) [
        | inl missing ↦ rw (missing, decremented) tt
        | inr (sale, found) ↦ elim (Bool-cases (leb n sale.remaining_stock)) [
          | inl enough ↦
              rw (found, enough, decremented)
                (after (sale.remaining_stock - n)
                  (take_counts pg counts
                    (record t { sales = set_stock id (sale.remaining_stock - n) t.sales }))
                  (take_counts-IfTaken counts
                    (record t { sales = set_stock id (sale.remaining_stock - n) t.sales })))
          | inr short ↦ rw (found, short, decremented) tt
        ]
      ])
    where
      after :
          (left : ℕ) (m : Result Thrown Tables)
          → IfTaken (record t { sales = set_stock id left t.sales }) m
          → IfTaken t m
      after left (ok u) (same, kept) =
          (same, IsKept-trans t.sales _ u.sales (IsKept-set_stock id left t.sales) kept)
      after left (throws e) h = tt

  -- What a whole batch leaves
  pub record Whole (entries : List PurchaseWriteEntry) (t u : Tables) : Type 0 where
    pub purchases_added : u.purchases ≡ (add_all t (map (entry_row pg) entries)).purchases
    pub kept : IsKept t.sales u.sales

  length-sale_ids :
      (entries : List PurchaseWriteEntry)
      → length (sale_ids (map (entry_row pg) entries)) ≡ length entries
  length-sale_ids [] = refl
  length-sale_ids (e ∷ es) = omega (arith, length-sale_ids es)

  abbrev body_end :
      List PurchaseWriteEntry → Tables → Result Thrown Tables → Result Thrown (ℕ × Tables)
  body_end entries t m = m >>= λ u. ok (length (sale_ids (map (entry_row pg) entries)), u)

  -- The body of a batch of new purchases, when it does not throw
  result-Whole :
      (entries : List PurchaseWriteEntry) (t : Tables) (n : ℕ) (u : Tables)
      → All (IsTimely t) (map (entry_row pg) entries)
      → IsNew t (map (entry_row pg) entries)
      → batch_body pg entries t ≡ ok (n, u)
      → (n ≡ length entries) × Whole entries t u
  unfolding batch_body
  result-Whole entries t n u timely new done =
      let rows = map (entry_row pg) entries in
      let insert : pg.insert_new t rows ≡ ok (add_all t rows, sale_ids rows) =
        pg.insert_new_law t rows ∙ inserted_new-add_all rows t timely new in
      ended (take_counts pg (count_by_sale [] (sale_ids rows)) (add_all t rows)) (rw insert at done)
        (take_counts-IfTaken (count_by_sale [] (sale_ids rows)) (add_all t rows))
    where
      ended :
          (m : Result Thrown Tables)
          → body_end entries t m ≡ ok (n, u)
          → IfTaken (add_all t (map (entry_row pg) entries)) m
          → (n ≡ length entries) × Whole entries t u
      ended (throws e) h taken = absurd (cc h)
      ended (ok v) h (same, kept) =
          let same_end : u ≡ v = cc h in
          let same_count : n ≡ length (sale_ids (map (entry_row pg) entries)) = cc h in
          (
            same_count ∙ length-sale_ids entries,
            subst (λ x. Whole entries t x) (sym same_end)
                (record {
                  purchases_added = same;
                  kept =
                      subst (λ (ss : List SaleRow). IsKept ss v.sales)
                        (add_all-sales (map (entry_row pg) entries) t) kept;
                }),
          )

  -- The body of a batch writes it whole if its sales exist, its times are in their
  -- periods, it wants no more of any sale than is left, and its purchases are all new.
  pub batch_body-Whole :
      (entries : List PurchaseWriteEntry) (t : Tables)
      → All (λ e. IsTimely t (entry_row pg e)) entries
      → ((id : Text) (sale : SaleRow)
          → find_sale id t.sales ≡ some sale
          → wanted pg id entries ≤ sale.remaining_stock)
      → IsNew t (map (entry_row pg) entries)
      → (u : Tables) × (batch_body pg entries t ≡ ok (length entries, u)) × Whole entries t u
  batch_body-Whole entries t timely room new =
      let (n, u, done) = batch_body-ok pg entries t timely room in
      let (whole_count, whole) = result-Whole entries t n u (rows entries timely) new done in
      (u, done ∙ ap (λ k. ok (k, u)) whole_count, whole)
    where
      rows :
          (es : List PurchaseWriteEntry)
          → All (λ e. IsTimely t (entry_row pg e)) es
          → All (IsTimely t) (map (entry_row pg) es)
      rows [] h = tt
      rows (e ∷ es) h = (h.0, rows es h.1)
