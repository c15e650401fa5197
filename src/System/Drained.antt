-- ===== src/System/Drained.antt =====
-- A batch of the worker is written whole, and keeps Redis, the queue and the tables in balance.
use sd_flash_sale.Prelude.{
  ℕ, ◌+◌, ◌≤◌, ◌≡◌, refl, sym, ap, subst, Bool, true, false, List, [], ◌∷◌, map, Option, none, some,
  Text, text_eq, text_eq_iff, text_eq_refl, to_lower_case, count, any-count_zero, All, All-map,
  All-take, All-drop, count-take, take, drop, length, is_some, arith, Bool-cases, inl, inr,
}
use sd_flash_sale.Prelude.Result.{Result, ok, throws}
use sd_flash_sale.Redis.Keys.{normalize_email}
use sd_flash_sale.Redis.Server.{RedisServer}
use sd_flash_sale.Redis.Gate.{Gate}
use sd_flash_sale.Database.Schema.{SaleRow, PurchaseRow, Tables, find_sale, is_purchase_of}
use sd_flash_sale.Database.Server.{Postgres, Thrown, fails, add_purchase}
use sd_flash_sale.Database.Invariant.{IsConsistent, with_stock}
use sd_flash_sale.Database.WriteBatch.{
  PurchaseWriteEntry, entry_row, identity, batch_body, write_purchase_batch,
}
use sd_flash_sale.Database.WriteBatch.Balance.{write_purchase_batch-Wrote, Wrote}
use sd_flash_sale.Database.WriteBatch.Progress.{IsTimely, wanted}
use sd_flash_sale.Database.WriteBatch.Complete.{IsNew, count-add_all, Whole, batch_body-Whole}
use sd_flash_sale.Api.Sales.Service.{CacheManager}
use sd_flash_sale.Api.Purchases.Service.{World}
use sd_flash_sale.Worker.{write_batch, forget_count}
use sd_flash_sale.System.{settled}
use sd_flash_sale.System.Balanced.{waiting, is_entry_of, IsBalanced}

-- Only live sales have messages waiting.
waiting-dead :
    (is_live : Text → Bool) (id : Text) (es : List PurchaseWriteEntry)
    → is_live id ≡ false
    → All (λ e. is_live e.sale_id ≡ true) es
    → waiting id es ≡ 0
waiting-dead is_live id [] dead h = refl
waiting-dead is_live id (e ∷ es) dead h = elim (Bool-cases (text_eq e.sale_id id)) [
  | inl hit ↦ absurd (ground (arith, rw ((text_eq_iff e.sale_id id).0 hit) at h.0, dead))
  | inr miss ↦ rw miss (waiting-dead is_live id es dead h.1)
]

module _ (pg : Postgres) where
  count-rows :
      (p : PurchaseRow → Bool) (q : PurchaseWriteEntry → Bool) (es : List PurchaseWriteEntry)
      → ((e : PurchaseWriteEntry) → p (entry_row pg e) ≡ q e)
      → count p (map (entry_row pg) es) ≡ count q es
  count-rows p q [] same = refl
  count-rows p q (e ∷ es) same = ground (arith, same e, count-rows p q es same)

  rows-IsNew :
      (is_live : Text → Bool) (es : List PurchaseWriteEntry) (t : Tables)
      → All (λ e. is_live e.sale_id ≡ true) es
      → ((id email : Text)
          → is_live id ≡ true
          → count (is_purchase_of id email) t.purchases + count (is_entry_of id email) es ≤ 1)
      → IsNew t (map (entry_row pg) es)
  unfolding entry_row
  rows-IsNew is_live [] t live h = tt
  rows-IsNew is_live (e ∷ es) t live h =
      let here = h e.sale_id e.email live.0 in
      (
        any-count_zero (is_purchase_of e.sale_id e.email) t.purchases
            (ground (arith, here, text_eq_refl e.sale_id, text_eq_refl (to_lower_case e.email))),
        rows-IsNew is_live es (add_purchase t (entry_row pg e)) live.1
            (λ id email id_live. ground (arith, h id email id_live)),
      )

  abbrev pub IfDrained :
      Option Thrown → List PurchaseWriteEntry → Tables → Result Thrown ℕ × Tables → Type 0
  IfDrained commit es t (ok k, u) = (k ≡ length es) × Whole pg es t u × IsConsistent u
  IfDrained commit es t (throws e, u) = (u ≡ t) × (is_some commit ≡ true)

  batch-IfDrained :
      (commit : Option Thrown) (es : List PurchaseWriteEntry) (t : Tables)
      → IsConsistent t
      → All (λ e. IsTimely t (entry_row pg e)) es
      → ((id : Text) (sale : SaleRow)
          → find_sale id t.sales ≡ some sale
          → wanted pg id es ≤ sale.remaining_stock)
      → IsNew t (map (entry_row pg) es)
      → IfDrained commit es t (write_purchase_batch pg (fails commit) es t)
  unfolding write_purchase_batch
  batch-IfDrained commit [] t c timely room new = (
    refl,
    record { purchases_added = refl; kept = λ id sale found. (sale.remaining_stock, found) },
    c,
  )
  batch-IfDrained none (e ∷ es) t c timely room new =
      let (u, done, whole) = batch_body-Whole pg (e ∷ es) t timely room new in
      let result =
        pg.transaction_ok Thrown ℕ identity (batch_body pg (e ∷ es)) t u (length (e ∷ es)) done in
      let wrote = write_purchase_batch-Wrote pg none (e ∷ es) t c in
      rw result (
        refl,
        whole,
        (subst
            (λ (x : Result Thrown ℕ × Tables).
              Wrote pg none (write_purchase_batch pg none (e ∷ es) t) t x)
            result wrote).0,
      )
  batch-IfDrained (some x) (e ∷ es) t c timely room new =
      let (u, done, whole) = batch_body-Whole pg (e ∷ es) t timely room new in
      rw
        (pg.transaction_fails Thrown ℕ identity x (batch_body pg (e ∷ es)) t u (length (e ∷ es))
          done)
        (refl, refl)

module _ (r : RedisServer) (pg : Postgres) (cm : CacheManager) (is_live : Text → Bool)
    (totals : Text → ℕ) where
  module _ (gates : Text → Gate) (w : World r pg cm) (b : IsBalanced r pg cm is_live totals gates w)
      (n : ℕ) where
    batch : List PurchaseWriteEntry
    batch = take n w.backlog

    batch-live : All (λ e. is_live e.sale_id ≡ true) batch
    unfolding batch
    batch-live = All-take _ n w.backlog (All-map (λ e h. h.0) w.backlog b.timely)

    batch-IsTimely : All (λ e. IsTimely w.tables (entry_row pg e)) batch
    unfolding batch entry_row
    batch-IsTimely = All-take _ n w.backlog (
        All-map
          (λ e (live, early, late).
            let (sale, o) = b.owed e.sale_id live in
            (sale, o.found, rw o.starts_same early, rw o.ends_same late))
          w.backlog b.timely)

    batch-room :
        (id : Text) (sale : SaleRow)
        → find_sale id w.tables.sales ≡ some sale
        → wanted pg id batch ≤ sale.remaining_stock
    unfolding batch
    batch-room id sale found = elim (Bool-cases (is_live id)) [
      | inl live ↦
          let (row, o) = b.owed id live in
          let same : row ≡ sale = cc (o.found, found) in
          omega (
            arith,
            o.stock_owed,
            ap (λ (x : SaleRow). x.remaining_stock) same,
            count-take (λ e. text_eq e.sale_id id) n w.backlog,
          )
      | inr dead ↦ omega (arith, waiting-dead is_live id batch dead batch-live)
    ]

    batch-IsNew : IsNew w.tables (map (entry_row pg) batch)
    unfolding batch
    batch-IsNew = rows-IsNew pg is_live batch w.tables batch-live (λ id email live. omega (
      arith,
      b.buyers_same id email live,
      b.once id live (normalize_email email),
      count-take (is_entry_of id email) n w.backlog,
    ))

    pub balanced-IfDrained :
        (commit : Option Thrown)
        → IfDrained pg commit
            (take n w.backlog)
            w.tables
            (write_purchase_batch pg (fails commit) (take n w.backlog) w.tables)
    unfolding batch
    balanced-IfDrained commit =
        batch-IfDrained pg commit (take n w.backlog) w.tables b.consistent batch-IsTimely batch-room
          batch-IsNew

    -- The tables after the batch, with the queue behind it
    drained-IsBalanced :
        (u : Tables)
        → Whole pg (take n w.backlog) w.tables u
        → IsConsistent u
        → IsBalanced r pg cm is_live totals gates
            (record w { tables = u; backlog = drop n w.backlog })
    unfolding entry_row
    drained-IsBalanced u whole c =
        let added : (q : PurchaseRow → Bool) (p : PurchaseWriteEntry → Bool)
            → ((e : PurchaseWriteEntry) → q (entry_row pg e) ≡ p e)
            → count q u.purchases + count p (drop n w.backlog)
              ≡ count q w.tables.purchases + count p w.backlog =
          λ q p same. rw whole.purchases_added (
            omega (
              arith,
              count-add_all q (map (entry_row pg) (take n w.backlog)) w.tables,
              count-rows pg q p (take n w.backlog) same,
              count-take p n w.backlog,
            )) in
        record {
          consistent = c;
          warm = b.warm;
          owed = λ id live.
              let (sale, o) = b.owed id live in
              let (m, found) = whole.kept id sale o.found in
              (
                with_stock m sale,
                record {
                  found = found;
                  total_same = o.total_same;
                  starts_same = o.starts_same;
                  ends_same = o.ends_same;
                  stock_owed = omega (
                    arith,
                    o.stock_owed,
                    c.balanced id (with_stock m sale) found,
                    b.consistent.balanced id sale o.found,
                    added (λ p. text_eq p.sale_id id) (λ e. text_eq e.sale_id id) (λ e. refl),
                  );
                },
              );
          once = b.once;
          buyers_same = λ id email live. omega (
            arith,
            b.buyers_same id email live,
            added (is_purchase_of id email) (is_entry_of id email) (λ e. refl),
          );
          timely = All-drop _ n w.backlog b.timely;
        }

    -- A batch of the oldest messages
    pub drains-IsBalanced :
        (commit : Option Thrown)
        → IsBalanced r pg cm is_live totals gates
            (settled r pg cm n w (write_batch pg (fails commit) (take n w.backlog) w.tables))
    unfolding write_batch
    drains-IsBalanced commit =
        ended (write_purchase_batch pg (fails commit) (take n w.backlog) w.tables)
          (balanced-IfDrained commit)
      where
        ended :
            (m : Result Thrown ℕ × Tables)
            → IfDrained pg commit (take n w.backlog) w.tables m
            → IsBalanced r pg cm is_live totals gates (settled r pg cm n w (forget_count m))
        ended (ok k, u) (all_written, whole, c) = drained-IsBalanced u whole c
        ended (throws e, u) (same, failed) =
            subst
              (λ (t : Tables). IsBalanced r pg cm is_live totals gates (record w { tables = t }))
              (sym same) b
