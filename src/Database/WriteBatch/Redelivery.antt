-- ===== src/Database/WriteBatch/Redelivery.antt =====
-- RabbitMQ may deliver a message again: a batch of packages/database/src/write-purchases.ts that was
-- written before inserts nothing and takes nothing.
use mathlib.Core.Option
use sd_flash_sale.Prelude.{
  ℕ, ◌≡◌, refl, ◌∙◌, subst, Bool, true, false, ◌-◌, List, [], ◌∷◌, map, Option, none, some, Text,
  text_eq_refl, any, arith, inl, inr, Bool-cases, Option-cases, length, leb, All, All-map,
}
use sd_flash_sale.Prelude.Result.{Result, ok, throws, Result-cases, ◌>>=◌}
use sd_flash_sale.Database.Schema.{
  SaleRow, PurchaseRow, Tables, find_sale, is_purchase_of, outside_period,
}
use sd_flash_sale.Database.Server.{
  Postgres, Thrown, CommitFault, rolled_back, unanswered, inserted_new, add_purchase, decremented,
  set_stock, also,
}
use sd_flash_sale.Database.Invariant.{find_sale-set_stock, with_stock}
use sd_flash_sale.Database.WriteBatch.{
  PurchaseWriteEntry, entry_row, identity, count_by_sale, take_counts, batch_body,
  write_purchase_batch,
}

-- The row is in its sale's period, and its buyer has a purchase of the sale.
abbrev pub IsKnown : Tables → PurchaseRow → Type 0
IsKnown t p =
    (outside_period (find_sale p.sale_id t.sales) p.purchased_at ≡ false)
    × (any (is_purchase_of p.sale_id p.email) t.purchases ≡ true)

inserted_new-known :
    (ps : List PurchaseRow) (t : Tables) → All (IsKnown t) ps → inserted_new t ps ≡ ok (t, [])
unfolding inserted_new
inserted_new-known [] t h = refl
inserted_new-known (p ∷ ps) t h = rw (h.0.0, h.0.1) (inserted_new-known ps t h.1)

-- `u` has every purchase of `t`, under the same periods.
pub record Extends (t u : Tables) : Type 0 where
  pub periods :
      (id : Text) (at : ℕ)
      → outside_period (find_sale id u.sales) at ≡ outside_period (find_sale id t.sales) at
  pub kept : (f : PurchaseRow → Bool) → any f t.purchases ≡ true → any f u.purchases ≡ true

Extends-refl : (t : Tables) → Extends t t
Extends-refl t = record { periods = λ id at. refl; kept = λ f h. h }

Extends-trans : {t u v : Tables} → Extends t u → Extends u v → Extends t v
Extends-trans p q = record {
  periods = λ id at. q.periods id at ∙ p.periods id at;
  kept = λ f h. q.kept f (p.kept f h);
}

IsKnown-Extends : {t u : Tables} → Extends t u → (p : PurchaseRow) → IsKnown t p → IsKnown u p
IsKnown-Extends e p h = (e.periods p.sale_id p.purchased_at ∙ h.0, e.kept _ h.1)

add_purchase-Extends : (t : Tables) (p : PurchaseRow) → Extends t (add_purchase t p)
add_purchase-Extends t p = record { periods = λ id at. refl; kept = λ f h. ground arith }

is_purchase_of_self : (p : PurchaseRow) → is_purchase_of p.sale_id p.email p ≡ true
is_purchase_of_self p = rw (text_eq_refl p.sale_id, text_eq_refl) refl

abbrev IfStored : Tables → List PurchaseRow → Result Thrown (Tables × List Text) → Type 0
IfStored t ps (ok (u, ids)) = Extends t u × All (IsKnown u) ps
IfStored t ps (throws e) = Unit {0}

also-IfStored :
    (t : Tables) (p : PurchaseRow) (ps : List PurchaseRow) (m : Result Thrown (Tables × List Text))
    → outside_period (find_sale p.sale_id t.sales) p.purchased_at ≡ false
    → IfStored (add_purchase t p) ps m
    → IfStored t (p ∷ ps) (also p.sale_id m)
also-IfStored t p ps (throws e) on_time h = tt
also-IfStored t p ps (ok (u, ids)) on_time h = (
  Extends-trans (add_purchase-Extends t p) h.0,
  (IsKnown-Extends h.0 p (on_time, rw (is_purchase_of_self p) refl), h.1),
)

inserted_new-IfStored : (ps : List PurchaseRow) (t : Tables) → IfStored t ps (inserted_new t ps)
unfolding inserted_new
inserted_new-IfStored [] t = (Extends-refl t, tt)
inserted_new-IfStored (p ∷ ps) t =
    elim (Bool-cases (outside_period (find_sale p.sale_id t.sales) p.purchased_at)) [
      | inl early ↦ rw early tt
      | inr on_time ↦
          rw on_time (elim (Bool-cases (any (is_purchase_of p.sale_id p.email) t.purchases)) [
            | inl known ↦
                rw known (skipped known on_time (inserted_new t ps) (inserted_new-IfStored ps t))
            | inr fresh ↦ rw fresh (elim (Option-cases (find_sale p.sale_id t.sales)) [
              | inl missing ↦ rw missing tt
              | inr (sale, found) ↦
                  rw found
                    (also-IfStored t p ps _ on_time (inserted_new-IfStored ps (add_purchase t p)))
            ])
          ])
    ]
  where
    skipped :
        any (is_purchase_of p.sale_id p.email) t.purchases ≡ true
        → outside_period (find_sale p.sale_id t.sales) p.purchased_at ≡ false
        → (m : Result Thrown (Tables × List Text)) → IfStored t ps m
        → IfStored t (p ∷ ps) m
    skipped known on_time (ok (u, ids)) h = (h.0, (IsKnown-Extends h.0 p (on_time, known), h.1))
    skipped known on_time (throws e) h = tt

outside_period-with_stock :
    (n : ℕ) (row : Option SaleRow) (at : ℕ)
    → outside_period (Option.map (with_stock n) row) at ≡ outside_period row at
outside_period-with_stock n none at = refl
outside_period-with_stock n (some row) at = refl

set_stock-Extends :
    (t : Tables) (id : Text) (n : ℕ) → Extends t (record t { sales = set_stock id n t.sales })
set_stock-Extends t id n = record {
  periods = λ j at.
      rw (find_sale-set_stock id j n t.sales)
        (ground (arith, outside_period-with_stock n (find_sale j t.sales) at));
  kept = λ f h. h;
}

module _ (pg : Postgres) where
  abbrev IfExtends : Tables → Result Thrown Tables → Type 0
  IfExtends t (ok u) = Extends t u
  IfExtends t (throws e) = Unit {0}

  take_counts-IfExtends :
      (counts : List (Text × ℕ)) (t : Tables) → IfExtends t (take_counts pg counts t)
  unfolding take_counts decremented
  take_counts-IfExtends [] t = Extends-refl t
  take_counts-IfExtends ((id, n) ∷ counts) t =
      rw (pg.decrement_law t id (leb n) n) (elim (Option-cases (find_sale id t.sales)) [
        | inl missing ↦ rw (missing, decremented) tt
        | inr (sale, found) ↦ elim (Bool-cases (leb n sale.remaining_stock)) [
          | inl enough ↦
              rw (found, enough, decremented)
                (onwards _ (set_stock-Extends t id (sale.remaining_stock - n))
                  (take_counts pg counts _) (take_counts-IfExtends counts _))
          | inr short ↦ rw (found, short, decremented) tt
        ]
      ])
    where
      onwards :
          (u : Tables) → Extends t u → (m : Result Thrown Tables) → IfExtends u m → IfExtends t m
      onwards u e (ok v) h = Extends-trans e h
      onwards u e (throws x) h = tt

  abbrev IfAllStored : Tables → List PurchaseRow → Result Thrown (ℕ × Tables) → Type 0
  IfAllStored t ps (ok (n, u)) = Extends t u × All (IsKnown u) ps
  IfAllStored t ps (throws e) = Unit {0}

  batch_body-IfAllStored :
      (entries : List PurchaseWriteEntry) (t : Tables)
      → IfAllStored t (map (entry_row pg) entries) (batch_body pg entries t)
  unfolding batch_body
  batch_body-IfAllStored entries t =
      rw (pg.insert_new_law t (map (entry_row pg) entries))
        (after_insert (inserted_new t (map (entry_row pg) entries)) (inserted_new-IfStored _ t))
    where
      after_take :
          (t' : Tables) (n : ℕ) (m : Result Thrown Tables)
          → Extends t t' × All (IsKnown t') (map (entry_row pg) entries)
          → IfExtends t' m
          → IfAllStored t (map (entry_row pg) entries) (m >>= λ u. ok (n, u))
      after_take t' n (ok u) known h =
          (Extends-trans known.0 h, All-map (IsKnown-Extends h) _ known.1)
      after_take t' n (throws e) known h = tt

      after_insert :
          (m : Result Thrown (Tables × List Text))
          → IfStored t (map (entry_row pg) entries) m
          → IfAllStored t (map (entry_row pg) entries) (
              m >>= λ (t', ids).
              take_counts pg (count_by_sale [] ids) t' >>= λ u. ok (length ids, u))
      after_insert (ok (t', ids)) h =
          after_take t' (length ids) _ h (take_counts-IfExtends (count_by_sale [] ids) t')
      after_insert (throws e) h = tt

  -- On rows that are all known the body of the transaction does nothing.
  batch_body-known :
      (entries : List PurchaseWriteEntry) (u : Tables)
      → All (IsKnown u) (map (entry_row pg) entries)
      → batch_body pg entries u ≡ ok (0, u)
  unfolding batch_body take_counts count_by_sale
  batch_body-known entries u h =
      rw (pg.insert_new_law u (map (entry_row pg) entries), inserted_new-known _ u h) refl

  -- A transaction that is done has kept every purchase, and has those of its batch.
  transaction-AllStored :
      (commit : Option CommitFault) (entries : List PurchaseWriteEntry) (t : Tables) {n : ℕ}
      {u : Tables}
      → pg.transaction Thrown ℕ identity commit (batch_body pg entries) t ≡ (ok n, u)
      → Extends t u × All (IsKnown u) (map (entry_row pg) entries)
  transaction-AllStored none entries t {n} {u} h = elim (Result-cases (batch_body pg entries t)) [
    | inl ((m, v), done) ↦
        let e : v ≡ u =
          cc (pg.transaction_ok Thrown ℕ identity (batch_body pg entries) t v m done) in
        rw (← e) (rw done at (batch_body-IfAllStored entries t))
    | inr (x, threw) ↦
        cc (pg.transaction_throws Thrown ℕ identity none (batch_body pg entries) t x threw)
  ]
  transaction-AllStored (some (rolled_back y)) entries t {n} {u} h =
      elim (Result-cases (batch_body pg entries t)) [
        | inl ((m, v), done) ↦
            cc (pg.transaction_fails Thrown ℕ identity y (batch_body pg entries) t v m done)
        | inr (x, threw) ↦ cc (
            pg.transaction_throws Thrown ℕ identity (some (rolled_back y)) (batch_body pg entries) t
              x threw)
      ]
  transaction-AllStored (some (unanswered y)) entries t {n} {u} h =
      elim (Result-cases (batch_body pg entries t)) [
        | inl ((m, v), done) ↦
            cc (pg.transaction_unanswered Thrown ℕ identity y (batch_body pg entries) t v m done)
        | inr (x, threw) ↦ cc (
            pg.transaction_throws Thrown ℕ identity (some (unanswered y)) (batch_body pg entries) t
              x threw)
      ]

  -- However a transaction ends, it has kept every purchase.
  transaction-Extends :
      (commit : Option CommitFault) (entries : List PurchaseWriteEntry) (t : Tables)
      → Extends t (pg.transaction Thrown ℕ identity commit (batch_body pg entries) t).1
  transaction-Extends commit entries t = elim (Result-cases (batch_body pg entries t)) [
    | inl ((m, v), done) ↦ ended commit m v done (rw done at (batch_body-IfAllStored entries t)).0
    | inr (x, threw) ↦
        rw (pg.transaction_throws Thrown ℕ identity commit (batch_body pg entries) t x threw)
          (Extends-refl t)
  ]
    where
      ended :
          (commit : Option CommitFault) (m : ℕ) (v : Tables)
          → batch_body pg entries t ≡ ok (m, v)
          → Extends t v
          → Extends t (pg.transaction Thrown ℕ identity commit (batch_body pg entries) t).1
      ended none m v done h =
          rw (pg.transaction_ok Thrown ℕ identity (batch_body pg entries) t v m done) h
      ended (some (rolled_back y)) m v done h =
          rw (pg.transaction_fails Thrown ℕ identity y (batch_body pg entries) t v m done)
            (Extends-refl t)
      ended (some (unanswered y)) m v done h =
          rw (pg.transaction_unanswered Thrown ℕ identity y (batch_body pg entries) t v m done) h

  pub write_purchase_batch-Extends :
      (commit : Option CommitFault) (entries : List PurchaseWriteEntry) (t : Tables)
      → Extends t (write_purchase_batch pg commit entries t).1
  unfolding write_purchase_batch
  write_purchase_batch-Extends commit [] t = Extends-refl t
  write_purchase_batch-Extends commit (entry ∷ entries) t =
      transaction-Extends commit (entry ∷ entries) t

  pub write_purchase_batch-stores :
      (commit : Option CommitFault) (entries : List PurchaseWriteEntry) (t : Tables) {n : ℕ}
      {u : Tables}
      → write_purchase_batch pg commit entries t ≡ (ok n, u)
      → Extends t u × All (IsKnown u) (map (entry_row pg) entries)
  unfolding write_purchase_batch
  write_purchase_batch-stores commit [] t {n} {u} h =
      let same : t ≡ u = cc h in (subst (Extends t) same (Extends-refl t), tt)
  write_purchase_batch-stores commit (entry ∷ entries) t h =
      transaction-AllStored commit (entry ∷ entries) t h

  -- Once a batch was written, writing it again, with COMMIT succeeding, reports 0 and leaves the
  -- tables exactly as they are.
  pub write_purchase_batch-again :
      (entries : List PurchaseWriteEntry) (t : Tables) {n : ℕ} {u : Tables}
      → write_purchase_batch pg none entries t ≡ (ok n, u)
      → write_purchase_batch pg none entries u ≡ (ok 0, u)
  unfolding write_purchase_batch
  write_purchase_batch-again [] t h = refl
  write_purchase_batch-again (entry ∷ entries) t {n} {u} h =
      pg.transaction_ok Thrown ℕ identity (batch_body pg (entry ∷ entries)) u u 0
        (batch_body-known (entry ∷ entries) u (transaction-AllStored none (entry ∷ entries) t h).1)
