-- ===== src/System/Bought.antt =====
-- A purchase on the fast path keeps Redis, the queue and the tables in balance.
use sd_flash_sale.Prelude.{
  ℕ, ◌+◌, ◌≤◌, ◌≡◌, refl, sym, ap, ◌∙◌, subst, Bool, true, ◌&&◌, List, [], ◌∷◌, Text, text_eq,
  text_eq_iff, text_eq_comm, to_lower_case, count, count-append, All, All-map, All-append, length,
  if◌then◌else◌, if-cases, arith, Bool-cases, inl, inr,
}
use sd_flash_sale.Redis.Keys.{normalize_email}
use sd_flash_sale.Redis.Server.{RedisServer}
use sd_flash_sale.Redis.Reserve.{ReservationCode}
use sd_flash_sale.Redis.Gate.{Gate, IsWarm, decide, attempt}
use sd_flash_sale.Redis.Gate.Stock.{
  is_reserved, wins, Given, attempt-Given, Given-refl, serve-other,
}
use sd_flash_sale.Database.Schema.{citext_eq}
use sd_flash_sale.Database.Server.{Postgres}
use sd_flash_sale.Database.WriteBatch.{PurchaseWriteEntry}
use sd_flash_sale.Api.Sales.Service.{CacheManager}
use sd_flash_sale.Api.Purchases.Service.{World, purchase}
use sd_flash_sale.Api.Purchases.Service.FastPath.{
  queued, attempt-decide, purchase-fast_path, purchase-store,
}
use sd_flash_sale.System.{healthy}
use sd_flash_sale.System.Balanced.{is_entry_of, IsBalanced}

decide-in_window :
    (g : Gate) (buyer : Text) (now : ℕ)
    → is_reserved (decide g buyer now) ≡ true
    → (g.starts_at ≤ now) × (now ≤ g.ends_at)
unfolding decide
decide-in_window g buyer now h = (ground arith, ground arith)

-- The gate of a sale after an attempt; those of the others are as before.
abbrev pub updated : Text → Text → ℕ → (Text → Gate) → Text → Gate
updated id buyer now gates j = if text_eq id j then (attempt (gates j) buyer now).1 else gates j

updated-starts :
    (id buyer : Text) (now : ℕ) (gates : Text → Gate) (j : Text)
    → ((updated id buyer now gates j).starts_at ≡ (gates j).starts_at)
      × ((updated id buyer now gates j).ends_at ≡ (gates j).ends_at)
updated-starts id buyer now gates j =
    if-cases (λ (g : Gate). (g.starts_at ≡ (gates j).starts_at) × (g.ends_at ≡ (gates j).ends_at))
      (text_eq id j)
      (λ _. let given = attempt-Given (gates j) buyer now in (given.starts_same, given.ends_same))
      (λ _. (refl, refl))

module _ (r : RedisServer) (pg : Postgres) (cm : CacheManager) (is_live : Text → Bool)
    (totals : Text → ℕ) (id email : Text) (now : ℕ) where
  abbrev code_of : (Text → Gate) → ReservationCode
  code_of gates = decide (gates id) (normalize_email email) now

  abbrev queue_of : (Text → Gate) → List PurchaseWriteEntry → List PurchaseWriteEntry
  queue_of gates = queued r pg cm (healthy now) id email (code_of gates)

  count-queue_of :
      (p : PurchaseWriteEntry → Bool) (gates : Text → Gate) (backlog : List PurchaseWriteEntry)
      → count p (queue_of gates backlog)
        ≡ count p backlog
          + (if is_reserved (code_of gates)
              then (if p (record { sale_id = id; email = email; reserved_at = now }) then 1 else 0)
              else 0)
  count-queue_of p gates backlog = elim (Bool-cases (is_reserved (code_of gates))) [
    | inl t ↦ rw t (
        ground (
          arith,
          count-append p backlog (record { sale_id = id; email = email; reserved_at = now } ∷ []),
        ))
    | inr f ↦ rw f (omega arith)
  ]

  updated-Given :
      (gates : Text → Gate) (j : Text)
      → Given
          (gates j)
          (updated id (normalize_email email) now gates j)
          (if text_eq id j then wins (normalize_email email) (code_of gates) else [])
  updated-Given gates j =
      let buyer = normalize_email email in
      let code_at : (i : Text) → id ≡ i → (attempt (gates i) buyer now).0 ≡ code_of gates =
        λ i same.
          attempt-decide (gates i) buyer now ∙ sym (ap (λ k. decide (gates k) buyer now) same) in
      elim (Bool-cases (text_eq id j)) [
        | inl hit ↦
            rw hit
              (rw (code_at j ((text_eq_iff id j).0 hit)) at (attempt-Given (gates j) buyer now))
        | inr miss ↦ rw miss (Given-refl (gates j))
      ]

  -- How much longer a count of the queue is, with the unit that was given away
  given-length :
      (gates : Text → Gate) (j : Text)
      → length (if text_eq id j then wins (normalize_email email) (code_of gates) else [])
        ≡ (if is_reserved (code_of gates) then (if text_eq id j then 1 else 0) else 0)
  given-length gates j = ground arith

  given-count :
      (gates : Text → Gate) (j e : Text)
      → count
          (text_eq (normalize_email e))
          (if text_eq id j then wins (normalize_email email) (code_of gates) else [])
        ≡ (if is_reserved (code_of gates)
            then (if text_eq id j && citext_eq email e then 1 else 0)
            else 0)
  unfolding normalize_email
  given-count gates j e = ground (arith, text_eq_comm (to_lower_case e) (to_lower_case email))

  abbrev IsTimelyFor : (Text → Gate) → PurchaseWriteEntry → Type 0
  IsTimelyFor gates e =
      (is_live e.sale_id ≡ true)
      × ((gates e.sale_id).starts_at ≤ e.reserved_at)
      × (e.reserved_at ≤ (gates e.sale_id).ends_at)

  IsTimelyFor-updated :
      (gates : Text → Gate) (e : PurchaseWriteEntry)
      → IsTimelyFor gates e
      → IsTimelyFor (updated id (normalize_email email) now gates) e
  IsTimelyFor-updated gates e (live, early, late) =
      let (starts, ends) = updated-starts id (normalize_email email) now gates e.sale_id in
      (live, rw starts early, rw ends late)

  queue-timely :
      (gates : Text → Gate) (backlog : List PurchaseWriteEntry)
      → is_live id ≡ true
      → All (IsTimelyFor gates) backlog
      → All (IsTimelyFor (updated id (normalize_email email) now gates)) (queue_of gates backlog)
  queue-timely gates backlog live h =
      let old = All-map (IsTimelyFor-updated gates) backlog h in
      if-cases (All (IsTimelyFor (updated id (normalize_email email) now gates)))
        (is_reserved (code_of gates))
        (λ won.
          All-append (IsTimelyFor (updated id (normalize_email email) now gates)) backlog _ old (
            IsTimelyFor-updated gates (record { sale_id = id; email = email; reserved_at = now })
                (let (early, late) = decide-in_window (gates id) (normalize_email email) now won in
                  (live, early, late)),
            tt,
          ))
        (λ lost. old)

  bought-IsBalanced :
      (gates : Text → Gate) (w w' : World r pg cm)
      → is_live id ≡ true
      → w'.tables ≡ w.tables
      → w'.backlog ≡ queue_of gates w.backlog
      → ((j : Text)
          → is_live j ≡ true
          → IsWarm r j (updated id (normalize_email email) now gates j) w'.store)
      → IsBalanced r pg cm is_live totals gates w
      → IsBalanced r pg cm is_live totals (updated id (normalize_email email) now gates) w'
  bought-IsBalanced gates w w' live same_tables same_queue warm b = record {
    consistent = rw same_tables b.consistent;
    warm = warm;
    owed = λ j j_live.
        let (sale, o) = b.owed j j_live in
        let given = updated-Given gates j in
        (
          sale,
          record {
            found = rw same_tables o.found;
            total_same = o.total_same;
            starts_same = o.starts_same ∙ sym given.starts_same;
            ends_same = o.ends_same ∙ sym given.ends_same;
            stock_owed =
                rw (same_queue, count-queue_of (λ e. text_eq e.sale_id j) gates w.backlog)
                  (omega (arith, o.stock_owed, given.stock_given, given-length gates j));
          },
        );
    once = λ j j_live. (updated-Given gates j).once_given (b.once j j_live);
    buyers_same = λ j e j_live.
        rw (same_tables, same_queue, count-queue_of (is_entry_of j e) gates w.backlog)
          (omega (
            arith,
            b.buyers_same j e j_live,
            (updated-Given gates j).buyers_given (normalize_email e),
            given-count gates j e,
          ));
    timely = rw same_queue (queue-timely gates w.backlog live b.timely);
  }

  -- A request for a live sale
  pub purchase-IsBalanced :
      (gates : Text → Gate) (w : World r pg cm)
      → is_live id ≡ true
      → IsBalanced r pg cm is_live totals gates w
      → IsBalanced r pg cm is_live totals
          (updated id (normalize_email email) now gates)
          (purchase r pg cm (healthy now) id email w).1
  purchase-IsBalanced gates w live b =
      let (answer, same_tables, same_queue, warm) =
        purchase-fast_path r pg cm (healthy now) id email (gates id) w (b.warm id live) refl refl in
      let same_store =
        purchase-store r pg cm (healthy now) id email (gates id) w (b.warm id live) refl refl in
      bought-IsBalanced gates w (purchase r pg cm (healthy now) id email w).1 live same_tables
        same_queue
        (λ j j_live. elim (Bool-cases (text_eq id j)) [
          | inl hit ↦ rw hit (
              subst
                (λ i.
                  IsWarm r i (attempt (gates i) (normalize_email email) now).1
                    (purchase r pg cm (healthy now) id email w).1.store)
                ((text_eq_iff id j).0 hit) warm)
          | inr miss ↦
              rw (miss, same_store)
                (serve-other r j (record { sale_id = id; email = email; now = now }) (gates j)
                  w.store miss (b.warm j j_live))
        ])
        b
