-- ===== src/System/Faults/Kept.antt =====
-- Whatever fails, the tables stay consistent and no success that was answered is forgotten.
use sd_flash_sale.Prelude.{
  none, ℕ, suc, zero, ◌≡◌, refl, sym, ◌∙◌, Bool, true, false, ◌||◌, List, [], ◌∷◌, ◌++◌, map,
  Option, Text, text_eq_iff, text_eq_refl, to_lower_case, any, any-append, All, All-map, take, drop,
  if◌then◌else◌, arith, Bool-cases, inl, inr,
}
use sd_flash_sale.Prelude.Result.{Result, ok, throws}
use sd_flash_sale.Redis.Server.{RedisServer}
use sd_flash_sale.Database.Schema.{PurchaseRow, Tables, is_purchase_of}
use sd_flash_sale.Database.Server.{Postgres, Thrown, CommitFault}
use sd_flash_sale.Database.Invariant.{IsConsistent}
use sd_flash_sale.Database.WriteBatch.{PurchaseWriteEntry, entry_row, write_purchase_batch}
use sd_flash_sale.Database.WriteBatch.Balance.{write_purchase_batch-Wrote, Wrote}
use sd_flash_sale.Database.WriteBatch.Redelivery.{
  IsKnown, Extends, write_purchase_batch-stores, write_purchase_batch-Extends,
}
use sd_flash_sale.Api.Sales.Service.{CacheManager}
use sd_flash_sale.Api.Purchases.Service.{Conditions, World, purchase, Reply}
use sd_flash_sale.Api.Purchases.Service.Evidence.{
  message, loses, delivered, takes-delivered, BehindSuccess, BehindRefusal, purchase-backs_success,
}
use sd_flash_sale.Api.Purchases.Write.Outcomes.{is_success}
use sd_flash_sale.Worker.{write_batch, forget_count}
use sd_flash_sale.System.Balanced.{is_entry_of}
use sd_flash_sale.System.Faults.{
  History, Event, requests, writes, gives_up, replaces, acknowledged, answered, step, run, opening,
}

any-take-drop {ℓ} :
    {A : Type ℓ} (p : A → Bool) (n : ℕ) (xs : List A)
    → any p xs ≡ (any p (take n xs) || any p (drop n xs))
any-take-drop p zero xs = refl
any-take-drop p (suc n) [] = refl
any-take-drop p (suc n) (x ∷ xs) = ground (arith, any-take-drop p n xs)

entry-congr :
    (e : PurchaseWriteEntry) (q : PurchaseRow) (id email : Text)
    → is_entry_of id email e ≡ true
    → is_purchase_of e.sale_id e.email q ≡ is_purchase_of id email q
entry-congr e q id email h = cc (
  (text_eq_iff e.sale_id id).0 (ground arith),
  (text_eq_iff (to_lower_case e.email) (to_lower_case email)).0 (ground arith),
)

any-congr {ℓ} :
    {A : Type ℓ} (p q : A → Bool) (xs : List A) → ((x : A) → p x ≡ q x) → any p xs ≡ any q xs
any-congr p q [] h = refl
any-congr p q (x ∷ xs) h = ground (arith, h x, any-congr p q xs h)

module _ (pg : Postgres) where
  -- A buyer with an entry in the batch has a purchase.
  known-purchase :
      (u : Tables) (id email : Text) (es : List PurchaseWriteEntry)
      → All (IsKnown u) (map (entry_row pg) es)
      → any (is_entry_of id email) es ≡ true
      → any (is_purchase_of id email) u.purchases ≡ true
  unfolding entry_row
  known-purchase u id email [] known h = absurd (cc h)
  known-purchase u id email (e ∷ es) known h = elim (Bool-cases (is_entry_of id email e)) [
    | inl mine ↦ sym (any-congr _ _ u.purchases (λ q. entry-congr e q id email mine)) ∙ known.0.1
    | inr other ↦ known-purchase u id email es known.1 (ground (arith, h, other))
  ]

module _ (r : RedisServer) (pg : Postgres) (cm : CacheManager) where
  -- A purchase in the tables, a message in the queue, or a dead letter
  abbrev pub is_kept : History r pg cm → Text → Text → Bool
  is_kept h id email =
      any (is_purchase_of id email) h.world.tables.purchases
      || any (is_entry_of id email) h.world.backlog
      || any (is_entry_of id email) h.dead

  abbrev pub IsKept : History r pg cm → Text × Text → Type 0
  IsKept h (id, email) = is_kept h id email ≡ true

  pub record IsSound (h : History r pg cm) : Type 0 where
    pub consistent : IsConsistent h.world.tables
    pub kept : All (IsKept h) h.promised

  -- What keeps every promise
  All-IsKept :
      (h h' : History r pg cm)
      → ((id email : Text) → is_kept h id email ≡ true → is_kept h' id email ≡ true)
      → (ps : List (Text × Text)) → All (IsKept h) ps
      → All (IsKept h') ps
  All-IsKept h h' keeps ps kept = All-map (λ p k. keeps p.0 p.1 k) ps kept

  -- Messages that are added to the queue, or a row that is added to the tables, keep every promise.
  delivered-IsKept :
      (h : History r pg cm) (w : World r pg cm) (xs : List PurchaseWriteEntry)
      (ps : List (Text × Text))
      → w.backlog ≡ h.world.backlog ++ xs
      → w.tables ≡ h.world.tables
      → All (IsKept h) ps
      → All (IsKept (record h { world = w })) ps
  delivered-IsKept h w xs ps queued same kept =
      All-IsKept h (record h { world = w })
        (λ i e k.
          rw (queued, same) (ground (arith, k, any-append (is_entry_of i e) h.world.backlog xs)))
        ps kept

  stored-IsKept :
      (h : History r pg cm) (w : World r pg cm) (p : PurchaseRow) (ps : List (Text × Text))
      → w.backlog ≡ h.world.backlog
      → w.tables.purchases ≡ p ∷ h.world.tables.purchases
      → All (IsKept h) ps
      → All (IsKept (record h { world = w })) ps
  stored-IsKept h w p ps same stored kept =
      All-IsKept h (record h { world = w }) (λ i e k. rw (same, stored) (ground (arith, k))) ps kept

  -- Whatever is behind a reply, it keeps the promises made before.
  module _ (c : Conditions) (id email : Text) (h : History r pg cm) (w : World r pg cm) where
    success-IsKept :
        BehindSuccess r pg cm c id email h.world w
        → All (IsKept h) h.promised
        → All (IsKept (record h { world = w })) h.promised
    success-IsKept (inl (taken, (queued, same))) kept =
        delivered-IsKept h w (delivered c.channel (message r pg cm c id email)) h.promised queued
          same kept
    success-IsKept (inr (same, stored)) kept = stored-IsKept h w _ h.promised same stored kept

    refusal-IsKept :
        BehindRefusal r pg cm c id email h.world w
        → All (IsKept h) h.promised
        → All (IsKept (record h { world = w })) h.promised
    refusal-IsKept (inl (same_queue, same_tables)) kept =
        All-IsKept h (record h { world = w }) (λ i e k. rw (same_queue, same_tables) k) h.promised
          kept
    refusal-IsKept (inr (inl (hung, (queued, same)))) kept =
        delivered-IsKept h w (delivered c.channel (message r pg cm c id email)) h.promised queued
          same kept
    refusal-IsKept (inr (inr (lost, (same, stored)))) kept =
        stored-IsKept h w _ h.promised same stored kept

    -- The new promise
    success-is_kept :
        BehindSuccess r pg cm c id email h.world w
        → loses c.channel ≡ false
        → is_kept (record h { world = w }) id email ≡ true
    success-is_kept (inl (taken, (queued, same))) arrives =
        rw (queued, takes-delivered c.channel (message r pg cm c id email) taken arrives)
          (ground (
            arith,
            any-append (is_entry_of id email) h.world.backlog (message r pg cm c id email ∷ []),
            text_eq_refl id,
            text_eq_refl (to_lower_case email),
          ))
    success-is_kept (inr (same, stored)) arrives =
        rw stored (ground (arith, text_eq_refl id, text_eq_refl (to_lower_case email)))

  abbrev Backs : Conditions → Text → Text → World r pg cm → Reply r pg cm → Type 0
  Backs c id email v (answer, w) =
      IsConsistent w.tables
      × (if is_success answer
          then BehindSuccess r pg cm c id email v w
          else BehindRefusal r pg cm c id email v w)

  answered-IsSound :
      (c : Conditions) (id email : Text) (h : History r pg cm) (reply : Reply r pg cm)
      → Backs c id email h.world reply
      → IsSound h
      → IsSound (answered r pg cm c id email reply h)
  answered-IsSound c id email h (answer, w) (consistent, behind) sound =
      elim (Bool-cases (is_success answer)) [
        | inl success ↦
            let evidence = rw success at behind in
            elim (Bool-cases (loses c.channel)) [
              | inl lossy ↦
                  rw (success, lossy)
                    (record {
                      consistent = consistent;
                      kept = success-IsKept c id email h w evidence sound.kept;
                    })
              | inr arrives ↦
                  rw (success, arrives)
                    (record {
                      consistent = consistent;
                      kept = (
                        success-is_kept c id email h w evidence arrives,
                        success-IsKept c id email h w evidence sound.kept,
                      );
                    })
            ]
        | inr refusal ↦ rw refusal (record {
          consistent = consistent;
          kept = refusal-IsKept c id email h w (rw refusal at behind) sound.kept;
        })
      ]

  written-IsSound :
      (n : ℕ) (commit : Option CommitFault) (acks : Bool) (h : History r pg cm)
      (stored m : Result Thrown ℕ × Tables)
      → Wrote pg commit stored h.world.tables m
      → Extends h.world.tables m.1
      → ((k : ℕ) (u : Tables)
          → m ≡ (ok k, u)
          → Extends h.world.tables u
            × All (IsKnown u) (map (entry_row pg) (take n h.world.backlog)))
      → IsSound h
      → IsSound (record h { world = acknowledged r pg cm n acks h.world (forget_count m) })
  written-IsSound n commit acks h stored (throws e, u) wrote extends stores sound = record {
    consistent = elim wrote [
      | inl same ↦ rw same sound.consistent
      | inr (lost, consistent, grown) ↦ consistent
    ];
    kept =
        All-IsKept h (record h { world = record h.world { tables = u } })
          (λ i e kept. ground (arith, kept, extends.kept (is_purchase_of i e))) h.promised
          sound.kept;
  }
  written-IsSound n commit acks h stored (ok k, u) wrote extends stores sound =
      let (same, known) = stores k u refl in
      record {
        consistent = wrote.0;
        kept =
            All-IsKept h
              (record h {
                world = record h.world {
                  tables = u;
                  backlog = if acks then drop n h.world.backlog else h.world.backlog;
                };
              })
              (λ i e kept. ground (
                arith,
                kept,
                extends.kept (is_purchase_of i e),
                any-take-drop (is_entry_of i e) n h.world.backlog,
                known-purchase pg u i e (take n h.world.backlog) known,
              ))
              h.promised sound.kept;
      }

  gives_up-IsSound :
      (n : ℕ) (h : History r pg cm) → IsSound h → IsSound (step r pg cm (gives_up n) h)
  unfolding step
  gives_up-IsSound n h sound = record {
    consistent = sound.consistent;
    kept =
        All-IsKept h (step r pg cm (gives_up n) h)
          (λ id email k. ground (
            arith,
            k,
            any-take-drop (is_entry_of id email) n h.world.backlog,
            any-append (is_entry_of id email) (take n h.world.backlog) h.dead,
          ))
          h.promised sound.kept;
  }

  step-IsSound : (e : Event r pg cm) (h : History r pg cm) → IsSound h → IsSound (step r pg cm e h)
  unfolding step write_batch
  step-IsSound (requests c id email) h sound =
      answered-IsSound c id email h (purchase r pg cm c id email h.world)
        (purchase-backs_success r pg cm c id email h.world sound.consistent) sound
  step-IsSound (writes n commit acks) h sound =
      let batch = take n h.world.backlog in
      written-IsSound n commit acks h (write_purchase_batch pg none batch h.world.tables)
        (write_purchase_batch pg commit batch h.world.tables)
        (write_purchase_batch-Wrote pg commit batch h.world.tables sound.consistent)
        (write_purchase_batch-Extends pg commit batch h.world.tables)
        (λ k u done. write_purchase_batch-stores pg commit batch h.world.tables done) sound
  step-IsSound (gives_up n) h sound = gives_up-IsSound n h sound
  step-IsSound (replaces store cache) h sound = record {
    consistent = sound.consistent;
    kept = sound.kept;
  }

  run-IsSound_from :
      (es : List (Event r pg cm)) (h : History r pg cm) → IsSound h → IsSound (run r pg cm es h)
  unfolding run
  run-IsSound_from [] h sound = sound
  run-IsSound_from (e ∷ es) h sound =
      run-IsSound_from es (step r pg cm e h) (step-IsSound e h sound)

  -- From consistent tables and an empty queue, whatever requests are made under whatever conditions of Redis,
  -- the channel, COMMIT and the clocks, whatever batches are written, written with COMMIT's reply lost, written
  -- without being acknowledged, or given up, and whatever state Redis and the cache are put into, while the
  -- broker keeps the messages that have reached it: the tables stay consistent, so that no sale is oversold and
  -- no buyer has two purchases of it; and each buyer to whom a success was answered, by a request whose channel
  -- does not lose the message that it takes, has a purchase in the tables, a message in the queue or a dead
  -- letter.
  pub run-IsSound :
      (es : List (Event r pg cm)) (store : r.Store) (cache : cm.Cache) (t : Tables)
      → IsConsistent t
      → IsSound (run r pg cm es (opening r pg cm store cache t))
  run-IsSound es store cache t c =
      run-IsSound_from es (opening r pg cm store cache t) (record { consistent = c; kept = tt })
