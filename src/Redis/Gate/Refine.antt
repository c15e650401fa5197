-- ===== src/Redis/Gate/Refine.antt =====
-- The script of packages/redis/lua/reserve-purchase.lua implements the abstract gate.
use mathlib.Core.Path.{fun_ext}
use sd_flash_sale.Prelude.{
  ℕ, suc, ◌-◌, ◌≡◌, ◌⊎◌, refl, ap, ◌∙◌, true, false, ◌||◌, List, [], ◌∷◌, arith, Text, contains,
  inl, inr, text_eq,
}
use sd_flash_sale.Redis.Keys.{
  sale_stock, sale_meta, sale_buyers, normalize_email, KeyKind, stock, buyers, sale_key,
}
use sd_flash_sale.Redis.Keys.Apart.{
  stock-ne-meta, stock-ne-buyers, buyers-ne-stock, buyers-ne-meta, sale_key-apart,
}
use sd_flash_sale.Redis.Server.{
  RedisServer, number, string_entry, set_entry, absent_entry, lookup_field, can_add,
}
use sd_flash_sale.Redis.Reserve.{ReservationCode, reserved, not_warmed, reserve_purchase}
use sd_flash_sale.Redis.Gate.{Gate, decide, take_unit, settle, attempt, buyers_entry, IsWarm}

can_add-buyers : (bs : List Text) → can_add (buyers_entry bs).kind ≡ true
can_add-buyers [] = refl
can_add-buyers (b ∷ bs) = refl

member-buyers : (bs : List Text) (x : Text) → (buyers_entry bs).member x ≡ contains bs x
unfolding contains
member-buyers [] x = refl
member-buyers (b ∷ bs) x = refl

contains-cons :
    (m : Text) (bs : List Text) (x : Text)
    → (contains (m ∷ []) x || contains bs x) ≡ contains (m ∷ bs) x
unfolding contains
contains-cons m bs x = ground arith

module _ (r : RedisServer) where
  open r use {Store, read, decr, sadd, decr_self, decr_frame, sadd_self, sadd_frame}

  add_buyer-entry :
      (k m : Text) (bs : List Text) (s : Store)
      → read s k ≡ buyers_entry bs
      → read (sadd s k (m ∷ [])) k ≡ buyers_entry (m ∷ bs)
  add_buyer-entry k m bs s h =
      sadd_self s k m [] (rw h (can_add-buyers bs))
      ∙ ap set_entry (fun_ext λ x. rw (h, member-buyers bs x) (contains-cons m bs x))

  take_unit-IsWarm :
      (id buyer : Text) (g : Gate) (s : Store) (n : ℕ)
      → g.stock ≡ suc n
      → IsWarm r id g s
      → IsWarm r id
          (take_unit g buyer)
          (sadd (decr s (sale_stock id)) (sale_buyers id) (buyer ∷ []))
  unfolding take_unit
  take_unit-IsWarm id buyer g s n e w = record {
    stock_key =
        sadd_frame _ _ _ _ (buyers-ne-stock id id)
        ∙ decr_self s (sale_stock id) n (w.stock_key ∙ ap (λ m. string_entry (number m)) e)
        ∙ ap (λ m. string_entry (number m)) (omega arith);
    meta_key =
        sadd_frame _ _ _ _ (buyers-ne-meta id id)
        ∙ decr_frame s _ _ (stock-ne-meta id id)
        ∙ w.meta_key;
    buyers_key =
        add_buyer-entry (sale_buyers id) buyer g.buyers (decr s (sale_stock id))
          (decr_frame s _ _ (stock-ne-buyers id id) ∙ w.buyers_key);
  }

  -- What the script returns and leaves, by the answer.
  outcome : Text → Text → Store → ReservationCode → ReservationCode × Store
  outcome id buyer s reserved =
      (reserved, sadd (decr s (sale_stock id)) (sale_buyers id) (buyer ∷ []))
  outcome id buyer s code = (code, s)

  reserve_purchase-outcome :
      (id email : Text) (now : ℕ) (g : Gate) (s : Store)
      → IsWarm r id g s
      → reserve_purchase r id email now s
        ≡ outcome id (normalize_email email) s (decide g (normalize_email email) now)
  unfolding reserve_purchase outcome decide lookup_field text_eq
  reserve_purchase-outcome id email now g s w =
      rw (w.stock_key, w.meta_key, w.buyers_key, member-buyers) (ground arith)

  outcome-IsWarm :
      (id buyer : Text) (now : ℕ) (g : Gate) (s : Store) (code : ReservationCode)
      → decide g buyer now ≡ code
      → IsWarm r id g s
      → ((outcome id buyer s code).0 ≡ (settle g buyer code).0)
        × IsWarm r id (settle g buyer code).1 (outcome id buyer s code).1
  unfolding outcome decide
  outcome-IsWarm id buyer now g s reserved e w =
      (refl, take_unit-IsWarm id buyer g s (g.stock - 1) (ground arith) w)
  outcome-IsWarm id buyer now g s _ e w = (refl, w)

  -- On a warmed sale the script answers as the abstract gate does, and leaves the store holding the
  -- gate's next state.
  pub reserve_purchase-refines-attempt :
      (id email : Text) (now : ℕ) (g : Gate) (s : Store)
      → IsWarm r id g s
      → ((reserve_purchase r id email now s).0 ≡ (attempt g (normalize_email email) now).0)
        × IsWarm r id
            (attempt g (normalize_email email) now).1
            (reserve_purchase r id email now s).1
  unfolding attempt
  reserve_purchase-refines-attempt id email now g s w =
      rw (reserve_purchase-outcome id email now g s w)
        (outcome-IsWarm id (normalize_email email) now g s _ refl w)

  -- An attempt on one sale leaves the keys of every other sale alone.
  pub reserve_purchase-frame :
      (id email : Text) (now : ℕ) (s : Store) (k : KeyKind) (j : Text)
      → text_eq id j ≡ false
      → read (reserve_purchase r id email now s).1 (sale_key k j) ≡ read s (sale_key k j)
  unfolding reserve_purchase
  reserve_purchase-frame id email now s k j ne = ground (
    arith,
    decr_frame s (sale_stock id) (sale_key k j) (sale_key-apart stock k id j ne),
    sadd_frame (decr s (sale_stock id)) (sale_buyers id) (sale_key k j) (normalize_email email ∷ [])
        (sale_key-apart buyers k id j ne),
  )

  -- A sale whose stock or window is not in Redis is left to the database, and nothing is written.
  pub reserve_purchase-not_warmed :
      (id email : Text) (now : ℕ) (s : Store)
      → (read s (sale_stock id) ≡ absent_entry) ⊎ (read s (sale_meta id) ≡ absent_entry)
      → reserve_purchase r id email now s ≡ (not_warmed, s)
  unfolding reserve_purchase
  reserve_purchase-not_warmed id email now s (inl h) = rw h
  reserve_purchase-not_warmed id email now s (inr h) = rw h (ground arith)
