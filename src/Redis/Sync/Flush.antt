-- ===== src/Redis/Sync/Flush.antt =====
-- `flushSaleKeys` of packages/redis/src/sync.ts sweeps every sale out of Redis.
use sd_flash_sale.Prelude.{
  ℕ, ◌≡◌, refl, Bool, true, false, ◌||◌, List, [], ◌∷◌, ◌++◌, arith, Text, codes, text_eq, contains,
  any, if◌then◌else◌, some, inl, inr, Bool-cases, any-append, ◌∙◌,
}
use sd_flash_sale.Redis.Keys.{
  sale_stock, sale_meta, sale_buyers, namespace, namespace_pattern, KeyKind, stock, meta, buyers,
  sale_key,
}
use sd_flash_sale.Redis.Server.{RedisServer, absent_entry, starts_with}
use sd_flash_sale.Redis.Reserve.{not_warmed, reserve_purchase}
use sd_flash_sale.Redis.Gate.Refine.{reserve_purchase-not_warmed}
use sd_flash_sale.Redis.Sync.{ScanPage, flush_sale_keys, flush_from, del_page}

-- The keys that SCAN returned up to the reply whose cursor is 0.
unfoldable pub seen : List ScanPage → List Text
seen [] = []
seen (page ∷ pages) =
    let later = seen pages in
    if text_eq page.cursor (codes "0") then page.keys else page.keys ++ later

contains-append :
    (xs ys : List Text) (j : Text) → contains (xs ++ ys) j ≡ (contains xs j || contains ys j)
unfolding contains
contains-append xs ys j = any-append (text_eq j) xs ys

abbrev pub is_last : ScanPage → Bool
is_last page = text_eq page.cursor (codes "0")

module _ (r : RedisServer) where
  open r use {Store, read, del, glob}

  -- The guarantee of SCAN: it returns every matching key that stays in the store throughout.
  pub record IsFullScan (pages : List ScanPage) (s : Store) : Type 0 where
    pub ends : any is_last pages ≡ true
    pub complete :
        (k : Text)
        → glob namespace_pattern k ≡ true
        → contains (seen pages) k ≡ false
        → read s k ≡ absent_entry

  -- The sweep's effect on each key.
  record Swept (pages : List ScanPage) (deleted : ℕ) (s : Store) : Type 0 where
    total : ℕ
    store : Store
    result : flush_from r pages (deleted, s) ≡ some (total, store)
    effect :
        (j : Text) → read store j ≡ (if contains (seen pages) j then absent_entry else read s j)

  del_page-effect :
      (keys : List Text) (deleted : ℕ) (s : Store) (j : Text)
      → read (del_page r keys (deleted, s)).1 j
        ≡ (if contains keys j then absent_entry else read s j)
  unfolding del_page contains
  del_page-effect [] deleted s j = refl
  del_page-effect (k ∷ ks) deleted s j = r.del_law s (k ∷ ks) j

  flush_from-Swept :
      (pages : List ScanPage) (deleted : ℕ) (s : Store)
      → any is_last pages ≡ true
      → Swept pages deleted s
  unfolding flush_from seen
  flush_from-Swept [] deleted s h = absurd (ground arith)
  flush_from-Swept (page ∷ pages) deleted s h = elim (Bool-cases (is_last page)) [
    | inl last ↦ record {
      total = (del_page r page.keys (deleted, s)).0;
      store = (del_page r page.keys (deleted, s)).1;
      result = rw last refl;
      effect = λ j. rw last (del_page-effect page.keys deleted s j);
    }
    | inr more ↦
        let (d, t) = del_page r page.keys (deleted, s) in
        let later = flush_from-Swept pages d t (ground arith) in
        record {
          total = later.total;
          store = later.store;
          result = rw more later.result;
          effect = λ j.
              rw (more, contains-append page.keys (seen pages) j, later.effect j, del_page-effect)
                (ground arith);
        }
  ]

  -- The sweep's pattern matches every key of every sale.
  sale_key-matches : (k : KeyKind) (id : Text) → glob namespace_pattern (sale_key k id) ≡ true
  unfolding starts_with namespace_pattern sale_stock sale_meta sale_buyers
  sale_key-matches stock id = r.glob_star (namespace ++ codes ":") _ refl
  sale_key-matches meta id = r.glob_star (namespace ++ codes ":") _ refl
  sale_key-matches buyers id = r.glob_star (namespace ++ codes ":") _ refl

  -- After a full scan the sweep is done, no sale is left in Redis, and exactly the keys that the scan
  -- returned are gone.
  pub flush_sale_keys-sweeps :
      (pages : List ScanPage) (s : Store)
      → IsFullScan pages s
      → (total : ℕ) × (t : Store) × (flush_sale_keys r pages s ≡ some (total, t))
        × ((k : KeyKind) (id : Text) → read t (sale_key k id) ≡ absent_entry)
        × ((j : Text) → read t j ≡ (if contains (seen pages) j then absent_entry else read s j))
  unfolding flush_sale_keys
  flush_sale_keys-sweeps pages s full =
      let swept = flush_from-Swept pages 0 s full.ends in
      (
        swept.total,
        swept.store,
        swept.result,
        λ k id. swept.effect (sale_key k id) ∙ gone (sale_key k id) (sale_key-matches k id),
        swept.effect,
      )
    where
      gone :
          (j : Text)
          → glob namespace_pattern j ≡ true
          → (if contains (seen pages) j then absent_entry else read s j) ≡ absent_entry
      gone j h = elim (Bool-cases (contains (seen pages) j)) [
        | inl hit ↦ rw hit refl
        | inr miss ↦ rw miss (full.complete j h miss)
      ]

  -- After a full scan the sweep is done, and then an attempt on any sale is left to the database
  -- and writes nothing.
  pub reserve_purchase-after_flush :
      (pages : List ScanPage) (s : Store) (id email : Text) (now : ℕ)
      → IsFullScan pages s
      → (total : ℕ) × (t : Store) × (flush_sale_keys r pages s ≡ some (total, t))
        × (reserve_purchase r id email now t ≡ (not_warmed, t))
  reserve_purchase-after_flush pages s id email now full =
      let (total, t, e, gone, _) = flush_sale_keys-sweeps pages s full in
      (total, t, e, reserve_purchase-not_warmed r id email now t (inl (gone stock id)))
