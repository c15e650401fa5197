-- ===== src/Api/Sales/Freshness.antt =====
-- How old a row may be that `findRowById` of apps/api/src/sales/sales.service.ts serves.
use sd_flash_sale.Prelude.{
  ℕ, ◌+◌, ◌≤◌, ◌≡◌, refl, sym, ◌∙◌, List, [], ◌∷◌, Option, none, some, Text, text_eq, text_eq_iff,
  arith, inl, inr, Bool-cases, Option-cases, ◌⊎◌,
}
use sd_flash_sale.Database.Schema.{Tables}
use sd_flash_sale.Database.Server.{Postgres}
use sd_flash_sale.Api.Sales.Utils.{SaleRow}
use sd_flash_sale.Api.Sales.Service.{
  CacheManager, sale_cache_key, sale_cache_ttl_ms, first_row, find_row_by_id,
}

-- A lookup: when it is made, for which id, and what the tables hold then.
pub record Lookup : Type 0 where
  pub now : ℕ
  pub id : Text
  pub tables : Tables

module _ (pg : Postgres) (cm : CacheManager) where
  open cm use {Cache, get}

  -- What the database answers to a lookup.
  abbrev pub answer : Lookup → Option SaleRow
  answer l = first_row (pg.select_sales l.tables (λ sale. text_eq sale.id l.id))

  -- One of the lookups asked for the id, got the row, and was made at most so long before.
  abbrev pub Shown : List Lookup → Text → SaleRow → ℕ → Type 0
  Shown [] id row later = ⊥
  Shown (l ∷ ls) id row later =
      ((l.id ≡ id) × (answer l ≡ some row) × (later ≤ l.now + sale_cache_ttl_ms))
      ⊎ Shown ls id row later

  -- Every entry of the cache was the database's answer within its time to live.
  pub record IsFresh (ls : List Lookup) (c : Cache) : Type 0 where
    pub shown :
        (id : Text) (later : ℕ) (row : SaleRow)
        → get c (sale_cache_key id) later ≡ some row
        → Shown ls id row later

  sale_cache_key-injective : (s t : Text) → sale_cache_key s ≡ sale_cache_key t → s ≡ t
  unfolding sale_cache_key
  sale_cache_key-injective s t h = cc

  IsFresh-older : (l : Lookup) (ls : List Lookup) (c : Cache) → IsFresh ls c → IsFresh (l ∷ ls) c
  IsFresh-older l ls c fresh = record { shown = λ id later row h. inr (fresh.shown id later row h) }

  -- The database's answer is remembered under its own key only.
  IsFresh-set :
      (l : Lookup) (ls : List Lookup) (c : Cache) (row : SaleRow)
      → answer l ≡ some row
      → IsFresh ls c
      → IsFresh (l ∷ ls) (cm.set c (sale_cache_key l.id) row sale_cache_ttl_ms l.now)
  IsFresh-set l ls c row read fresh = record {
    shown = λ id later found h.
        elim (Bool-cases (text_eq (sale_cache_key l.id) (sale_cache_key id))) [
          | inl same ↦
              let e = (text_eq_iff _ _).0 same in
              let (found_eq, age) =
                cm.get-set c (sale_cache_key l.id) row sale_cache_ttl_ms l.now later
                  (rw (← e) at h) in
              inl (sale_cache_key-injective l.id id e, rw found_eq read, age)
          | inr differ ↦ inr (
              fresh.shown id later found
                (sym (cm.get-set_ne c _ _ row sale_cache_ttl_ms l.now later differ) ∙ h))
        ];
  }

  -- What is found was shown within the time to live; what is not found is not in the database.
  abbrev pub IfFound : List Lookup → Lookup → Option SaleRow → Type 0
  IfFound ls l (some row) = Shown (l ∷ ls) l.id row l.now
  IfFound ls l none = answer l ≡ none

  -- With a fresh cache, the lookup serves a row of the database that is not older than the cache's
  -- time to live, an id that is not found was not found by the database now, and the cache stays
  -- fresh.
  pub find_row_by_id-IsFresh :
      (ls : List Lookup) (l : Lookup) (c : Cache)
      → IsFresh ls c
      → let (found, c') = find_row_by_id pg cm l.tables l.id l.now c in
        IsFresh (l ∷ ls) c' × IfFound ls l found
  unfolding find_row_by_id
  find_row_by_id-IsFresh ls l c fresh = elim (Option-cases (get c (sale_cache_key l.id) l.now)) [
    | inr (row, hit) ↦
        rw (hit, find_row_by_id) (IsFresh-older l ls c fresh, inr (fresh.shown l.id l.now row hit))
    | inl miss ↦ elim (Option-cases (answer l)) [
      | inl unknown ↦ rw (miss, unknown, find_row_by_id) (IsFresh-older l ls c fresh, unknown)
      | inr (row, read) ↦
          rw (miss, read, find_row_by_id)
            (IsFresh-set l ls c row read fresh, inl (refl, read, omega arith))
    ]
  ]
