-- ===== src/Redis/Sync/Warm.antt =====
-- `syncSale` of packages/redis/src/sync.ts replaces what Redis holds of a sale.
use mathlib.Core.Path.{fun_ext}
use sd_flash_sale.Prelude.{
  ◌≡◌, refl, ap, ◌∙◌, Bool, false, ◌||◌, List, [], ◌∷◌, map, arith, Text, text_eq, text_eq_refl,
  text_eq_comm, contains, is_some,
}
use sd_flash_sale.Redis.Keys.{
  sale_stock, sale_meta, sale_buyers, normalize_email, KeyKind, stock, buyers, meta, sale_key,
}
use sd_flash_sale.Redis.Keys.Apart.{
  stock-ne-meta, stock-ne-buyers, meta-ne-buyers, meta-ne-stock, buyers-ne-stock, buyers-ne-meta,
  sale_key-apart,
}
use sd_flash_sale.Redis.Server.{RedisServer, absent_entry, set_entry, number}
use sd_flash_sale.Redis.Gate.{Gate, IsWarm, buyers_entry}
use sd_flash_sale.Redis.Sync.{SyncSaleInput, sync_sale, add_buyers, meta_fields}

-- The gate that a row of the database and the buyers' addresses describe.
abbrev pub gate_of : SyncSaleInput → List Text → Gate
gate_of sale emails = record {
  cancelled = is_some sale.cancelled_at;
  starts_at = sale.starts_at;
  ends_at = sale.ends_at;
  stock = sale.remaining_stock;
  buyers = map normalize_email emails;
}

or_false : (b : Bool) → (b || false) ≡ b
or_false b = ground arith

module _ (r : RedisServer) (sale : SyncSaleInput) where
  open r use {Store, read, set, hset, sadd, del}

  cleared : Store → Store
  cleared s = del s (sale_stock sale.id ∷ sale_meta sale.id ∷ sale_buyers sale.id ∷ [])

  stocked : Store → Store
  unfolding cleared
  stocked s = set (cleared s) (sale_stock sale.id) (number sale.remaining_stock)

  described : Store → Store
  unfolding stocked
  described s = hset (stocked s) (sale_meta sale.id) (meta_fields sale)

  cleared-absent : (s : Store) (k : KeyKind) → read (cleared s) (sale_key k sale.id) ≡ absent_entry
  unfolding cleared contains
  cleared-absent s stock = rw (r.del_law, text_eq_refl (sale_stock sale.id)) refl
  cleared-absent s meta =
      rw (r.del_law, meta-ne-stock sale.id sale.id, text_eq_refl (sale_meta sale.id)) refl
  cleared-absent s buyers =
      rw
        (
          r.del_law,
          buyers-ne-stock sale.id sale.id,
          buyers-ne-meta sale.id sale.id,
          text_eq_refl (sale_buyers sale.id),
        )
        refl

  described-buyers : (s : Store) → read (described s) (sale_buyers sale.id) ≡ absent_entry
  unfolding described
  described-buyers s =
      r.hset_frame _ _ _ _ (meta-ne-buyers sale.id sale.id)
      ∙ r.set_frame _ _ _ _ (stock-ne-buyers sale.id sale.id)
      ∙ cleared-absent s buyers

  add_buyers-entry :
      (k : Text) (emails : List Text) (s : Store)
      → read s k ≡ absent_entry
      → read (add_buyers r k emails s) k ≡ buyers_entry (map normalize_email emails)
  unfolding add_buyers
  add_buyers-entry k [] s h = h
  add_buyers-entry k (e ∷ es) s h =
      r.sadd_self s k (normalize_email e) (map normalize_email es) (rw h refl)
      ∙ ap set_entry (fun_ext λ x. rw h (or_false _))

  add_buyers-frame :
      (k j : Text) (emails : List Text) (s : Store)
      → text_eq k j ≡ false
      → read (add_buyers r k emails s) j ≡ read s j
  unfolding add_buyers
  add_buyers-frame k j [] s h = refl
  add_buyers-frame k j (e ∷ es) s h = r.sadd_frame s k j _ h

  -- Whatever the store held before, it then holds the sale as the database gave it: no stock count, no
  -- flag and no buyer of an earlier load survives.
  pub sync_sale-IsWarm :
      (emails : List Text) (s : Store)
      → IsWarm r sale.id (gate_of sale emails) (sync_sale r sale emails s)
  unfolding sync_sale described
  sync_sale-IsWarm emails s = record {
    stock_key =
        add_buyers-frame _ _ emails (described s) (buyers-ne-stock sale.id sale.id)
        ∙ (r.hset_frame _ _ _ _ (meta-ne-stock sale.id sale.id) ∙ r.set_self _ _ _);
    meta_key =
        add_buyers-frame _ _ emails (described s) (buyers-ne-meta sale.id sale.id)
        ∙ r.hset_new _ _ _
            (r.set_frame _ _ _ _ (stock-ne-meta sale.id sale.id) ∙ cleared-absent s meta);
    buyers_key = add_buyers-entry _ emails (described s) (described-buyers s);
  }

  not_listed :
      (k : KeyKind) (j : Text)
      → text_eq sale.id j ≡ false
      → contains (sale_stock sale.id ∷ sale_meta sale.id ∷ sale_buyers sale.id ∷ []) (sale_key k j)
        ≡ false
  unfolding contains
  not_listed k j ne = ground (
    arith,
    text_eq_comm (sale_key k j) (sale_stock sale.id),
    text_eq_comm (sale_key k j) (sale_meta sale.id),
    text_eq_comm (sale_key k j) (sale_buyers sale.id),
    sale_key-apart stock k sale.id j ne,
    sale_key-apart meta k sale.id j ne,
    sale_key-apart buyers k sale.id j ne,
  )

  -- Loading one sale leaves every other sale as it was.
  pub sync_sale-frame :
      (emails : List Text) (s : Store) (k : KeyKind) (j : Text)
      → text_eq sale.id j ≡ false
      → read (sync_sale r sale emails s) (sale_key k j) ≡ read s (sale_key k j)
  unfolding sync_sale described
  sync_sale-frame emails s k j ne =
      add_buyers-frame _ _ emails (described s) (sale_key-apart buyers k sale.id j ne)
      ∙ r.hset_frame _ _ _ _ (sale_key-apart meta k sale.id j ne)
      ∙ r.set_frame _ _ _ _ (sale_key-apart stock k sale.id j ne)
      ∙ r.del_law s _ (sale_key k j)
      ∙ rw (not_listed k j ne) refl
