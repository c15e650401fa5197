-- ===== src/Database/WriteBatch/Balance.antt =====
-- A batch of packages/database/src/write-purchases.ts keeps the tables consistent, and a batch that
-- is delivered again changes nothing.
use sd_flash_sale.Prelude.{
  ℕ, ◌+◌, ◌-◌, ◌⊎◌, ◌≡◌, refl, ap, ◌∙◌, true, List, [], ◌∷◌, map, Option, none, some, Text, text_eq,
  text_eq_iff, count, any, if◌then◌else◌, arith, inl, inr, Bool-cases, Option-cases, length, leb,
}
use sd_flash_sale.Prelude.Result.{Result, ok, throws, Result-cases, ◌>>=◌}
use sd_flash_sale.Database.Schema.{PurchaseRow, Tables, find_sale, is_purchase_of, outside_period}
use sd_flash_sale.Database.Server.{
  Postgres, Thrown, CommitFault, rolled_back, unanswered, is_unanswered, Body, inserted_new,
  add_purchase, decremented, set_stock, also,
}
use sd_flash_sale.Database.Invariant.{
  IsConsistentBy, IsConsistent, one_if, add_purchase-IsConsistentBy, set_stock-IsConsistentBy,
}
use sd_flash_sale.Database.WriteBatch.{
  PurchaseWriteEntry, entry_row, identity, bump, count_by_sale, take_counts, batch_body,
  write_purchase_batch,
}

abbrev pub times : Text → List Text → ℕ
times j = count (λ id. text_eq id j)

-- What a Map of counts holds for a sale.
abbrev pub held : Text → List (Text × ℕ) → ℕ
held j [] = 0
held j ((id, n) ∷ counts) = (if text_eq id j then n else 0) + held j counts

held-bump :
    (id j : Text) (counts : List (Text × ℕ))
    → held j (bump id counts) ≡ held j counts + one_if (text_eq id j)
unfolding bump
held-bump id j [] = ground arith
held-bump id j ((i, n) ∷ counts) = ground (arith, held-bump id j counts, text_eq_iff i id)

-- The Map counts each sale as often as its id was returned.
pub held-count_by_sale :
    (j : Text) (counts : List (Text × ℕ)) (ids : List Text)
    → held j (count_by_sale counts ids) ≡ held j counts + times j ids
unfolding count_by_sale
held-count_by_sale j counts [] = omega arith
held-count_by_sale j counts (id ∷ ids) =
    ground (arith, held-count_by_sale j (bump id counts) ids, held-bump id j counts)

IsConsistentBy-congr :
    (f g : Text → ℕ) (t : Tables)
    → ((j : Text) → f j ≡ g j)
    → IsConsistentBy f t
    → IsConsistentBy g t
IsConsistentBy-congr f g t e c = record {
  balanced = λ id sale h. omega (arith, c.balanced id sale h, e id);
  once = c.once;
}

-- What INSERT … ON CONFLICT DO NOTHING leaves: one purchase for each id that it returns.
record Inserted (t : Tables) (owed : Text → ℕ) (t' : Tables) (ids : List Text) : Type 0 where
  consistent : IsConsistentBy (λ j. owed j + times j ids) t'
  sales_same : t'.sales ≡ t.sales
  grown : length t'.purchases ≡ length t.purchases + length ids

abbrev IfInserted : Tables → (Text → ℕ) → Result Thrown (Tables × List Text) → Type 0
IfInserted t owed (ok (t', ids)) = Inserted t owed t' ids
IfInserted t owed (throws e) = Unit {0}

-- The next row was stored, and the rest follows.
also-IfInserted :
    (t : Tables) (owed : Text → ℕ) (p : PurchaseRow) (m : Result Thrown (Tables × List Text))
    → IfInserted (add_purchase t p) (λ j. owed j + one_if (text_eq p.sale_id j)) m
    → IfInserted t owed (also p.sale_id m)
also-IfInserted t owed p (ok (u, ids)) h = record {
  consistent = IsConsistentBy-congr _ _ u (λ j. ground arith) h.consistent;
  sales_same = h.sales_same;
  grown = omega (arith, h.grown);
}
also-IfInserted t owed p (throws e) h = tt

inserted_new-IfInserted :
    (ps : List PurchaseRow) (t : Tables) (owed : Text → ℕ)
    → IsConsistentBy owed t
    → IfInserted t owed (inserted_new t ps)
unfolding inserted_new
inserted_new-IfInserted [] t owed c = record {
  consistent = IsConsistentBy-congr _ _ t (λ j. omega arith) c;
  sales_same = refl;
  grown = omega arith;
}
inserted_new-IfInserted (p ∷ ps) t owed c =
    elim (Bool-cases (outside_period (find_sale p.sale_id t.sales) p.purchased_at)) [
      | inl early ↦ rw early tt
      | inr on_time ↦
          rw on_time (elim (Bool-cases (any (is_purchase_of p.sale_id p.email) t.purchases)) [
            | inl known ↦ rw known (inserted_new-IfInserted ps t owed c)
            | inr fresh ↦ rw fresh (elim (Option-cases (find_sale p.sale_id t.sales)) [
              | inl missing ↦ rw missing tt
              | inr (sale, found) ↦ rw found (
                  also-IfInserted t owed p (inserted_new (add_purchase t p) ps) (
                    inserted_new-IfInserted ps (add_purchase t p) _
                      (add_purchase-IsConsistentBy owed t p fresh c)))
            ])
          ])
    ]

module _ (pg : Postgres) where
  abbrev IfTaken : (Text → ℕ) → Tables → Result Thrown Tables → Type 0
  IfTaken owed t (ok u) = IsConsistentBy owed u × (u.purchases ≡ t.purchases)
  IfTaken owed t (throws e) = Unit {0}

  -- Taking the counts off the stock pays what the new purchases owe.
  take_counts-IfTaken :
      (counts : List (Text × ℕ)) (t : Tables) (owed : Text → ℕ)
      → IsConsistentBy (λ j. owed j + held j counts) t
      → IfTaken owed t (take_counts pg counts t)
  unfolding take_counts decremented
  take_counts-IfTaken [] t owed c = (IsConsistentBy-congr _ _ t (λ j. omega arith) c, refl)
  take_counts-IfTaken ((id, n) ∷ counts) t owed c =
      rw (pg.decrement_law t id (leb n) n) (elim (Option-cases (find_sale id t.sales)) [
        | inl missing ↦ rw (missing, decremented) tt
        | inr (sale, found) ↦ elim (Bool-cases (leb n sale.remaining_stock)) [
          | inl enough ↦
              rw (found, enough, decremented)
                (take_counts-IfTaken counts
                  (record t { sales = set_stock id (sale.remaining_stock - n) t.sales }) owed
                  (set_stock-IsConsistentBy (λ j. owed j + held j counts) t id n sale found
                    (ground arith) (IsConsistentBy-congr _ _ t (λ j. omega arith) c)))
          | inr short ↦ rw (found, short, decremented) tt
        ]
      ])

  abbrev IfBody : Tables → Result Thrown (ℕ × Tables) → Type 0
  IfBody t (ok (n, u)) = IsConsistent u × (length u.purchases ≡ length t.purchases + n)
  IfBody t (throws e) = Unit {0}

  batch_body-IfBody :
      (entries : List PurchaseWriteEntry) (t : Tables)
      → IsConsistent t
      → IfBody t (batch_body pg entries t)
  unfolding batch_body
  batch_body-IfBody entries t c = rw (pg.insert_new_law t (map (entry_row pg) entries)) (
      after_insert (inserted_new t (map (entry_row pg) entries))
        (inserted_new-IfInserted _ t (λ j. 0) c))
    where
      after_take :
          (t' : Tables) (ids : List Text) (m : Result Thrown Tables)
          → length t'.purchases ≡ length t.purchases + length ids
          → IfTaken (λ j. 0) t' m
          → IfBody t (m >>= λ u. ok (length ids, u))
      after_take t' ids (ok u) grown h = (h.0, ap length h.1 ∙ grown)
      after_take t' ids (throws e) grown h = tt

      after_insert :
          (m : Result Thrown (Tables × List Text))
          → IfInserted t (λ j. 0) m
          → IfBody t (
              m >>= λ (t', ids).
              take_counts pg (count_by_sale [] ids) t' >>= λ u. ok (length ids, u))
      after_insert (ok (t', ids)) h = after_take t' ids _ h.grown (
          take_counts-IfTaken (count_by_sale [] ids) t' (λ j. 0)
            (IsConsistentBy-congr _ _ t' (λ j. omega (arith, held-count_by_sale j [] ids))
              h.consistent))
      after_insert (throws e) h = tt

  -- What a batch leaves, by how it ended; `stored` is what it leaves when COMMIT succeeds.
  abbrev pub Wrote :
      Option CommitFault → Result Thrown ℕ × Tables → Tables → Result Thrown ℕ × Tables → Type 0
  Wrote commit stored t (ok n, u) = IsConsistent u × (length u.purchases ≡ length t.purchases + n)
  Wrote commit stored t (throws e, u) =
      (u ≡ t) ⊎ ((is_unanswered commit ≡ true) × IsConsistent u × ((n : ℕ) × (stored ≡ (ok n, u))))

  transaction-Wrote :
      (commit : Option CommitFault) (body : Body Thrown ℕ) (t : Tables)
      → IfBody t (body t)
      → Wrote commit
          (pg.transaction Thrown ℕ identity none body t)
          t
          (pg.transaction Thrown ℕ identity commit body t)
  transaction-Wrote commit body t h = elim (Result-cases (body t)) [
    | inr (e, threw) ↦ rw (pg.transaction_throws Thrown ℕ identity commit body t e threw) (inl refl)
    | inl ((n, u), done) ↦ committed commit n u done (rw done at h)
  ]
    where
      committed :
          (commit : Option CommitFault) (n : ℕ) (u : Tables)
          → body t ≡ ok (n, u)
          → IsConsistent u × (length u.purchases ≡ length t.purchases + n)
          → Wrote commit
              (pg.transaction Thrown ℕ identity none body t)
              t
              (pg.transaction Thrown ℕ identity commit body t)
      committed none n u done h = rw (pg.transaction_ok Thrown ℕ identity body t u n done) h
      committed (some (rolled_back e)) n u done h =
          rw (pg.transaction_fails Thrown ℕ identity e body t u n done) (inl refl)
      committed (some (unanswered e)) n u done h =
          rw (pg.transaction_unanswered Thrown ℕ identity e body t u n done)
            (inr (refl, h.0, (n, pg.transaction_ok Thrown ℕ identity body t u n done)))

  -- On consistent tables, a batch that is written adds as many purchases as it reports and keeps
  -- the tables consistent; a batch that throws, for whatever reason, leaves them as they were, unless it is
  -- COMMIT's reply that was lost: then they are consistent, and the ones that the batch leaves when COMMIT succeeds.
  pub write_purchase_batch-Wrote :
      (commit : Option CommitFault) (entries : List PurchaseWriteEntry) (t : Tables)
      → IsConsistent t
      → Wrote commit
          (write_purchase_batch pg none entries t)
          t
          (write_purchase_batch pg commit entries t)
  unfolding write_purchase_batch
  write_purchase_batch-Wrote commit [] t c = (c, omega arith)
  write_purchase_batch-Wrote commit (entry ∷ entries) t c =
      transaction-Wrote commit (batch_body pg (entry ∷ entries)) t
        (batch_body-IfBody (entry ∷ entries) t c)
