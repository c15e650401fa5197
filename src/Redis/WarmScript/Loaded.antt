-- ===== src/Redis/WarmScript/Loaded.antt =====
-- What packages/redis/src/scripts/warm.ts leaves in Redis.
use sd_flash_sale.Prelude.{
  ℕ, ◌≡◌, sym, ap, ◌∙◌, subst, Bool, true, false, List, [], ◌∷◌, some, Text, text_eq, text_eq_iff,
  any, select, any-select, arith, if-cases, Bool-cases, inl, inr,
}
use sd_flash_sale.Redis.Keys.{KeyKind, stock, meta, buyers, sale_key}
use sd_flash_sale.Redis.Server.{RedisServer}
use sd_flash_sale.Redis.Sync.{sync_sale}
use sd_flash_sale.Redis.Sync.Warm.{gate_of, sync_sale-IsWarm, sync_sale-frame}
use sd_flash_sale.Redis.Gate.{IsWarm, Gate}
use sd_flash_sale.Database.Schema.{SaleRow, Tables, find_sale}
use sd_flash_sale.Database.Server.{Postgres}
use sd_flash_sale.Redis.WarmScript.{input_of, is_warmed, buyer_emails, warm_sales, warm}

-- The primary key of `sales`
abbrev pub IsKeyed : List SaleRow → Type 0
IsKeyed [] = Unit
IsKeyed (sale ∷ sales) = (any (λ x. text_eq x.id sale.id) sales ≡ false) × IsKeyed sales

select-IsKeyed :
    (q : SaleRow → Bool) (sales : List SaleRow) → IsKeyed sales → IsKeyed (select q sales)
select-IsKeyed q [] h = tt
select-IsKeyed q (sale ∷ sales) h =
    if-cases IsKeyed (q sale) (λ _. (any-select _ q sales h.0, select-IsKeyed q sales h.1))
      (λ _. select-IsKeyed q sales h.1)

find_sale-id :
    (id : Text) (sale : SaleRow) (sales : List SaleRow)
    → find_sale id sales ≡ some sale
    → sale.id ≡ id
unfolding find_sale
find_sale-id id sale [] h = absurd (cc h)
find_sale-id id sale (x ∷ xs) h = elim (Bool-cases (text_eq x.id id)) [
  | inl t ↦
      let same : x ≡ sale = cc (rw t at h) in
      sym (ap (λ (y : SaleRow). y.id) same) ∙ (text_eq_iff x.id id).0 t
  | inr f ↦ find_sale-id id sale xs (rw f at h)
]

find_sale-select :
    (q : SaleRow → Bool) (id : Text) (sale : SaleRow) (sales : List SaleRow)
    → find_sale id sales ≡ some sale
    → q sale ≡ true
    → find_sale id (select q sales) ≡ some sale
unfolding find_sale
find_sale-select q id sale [] h passes = absurd (cc h)
find_sale-select q id sale (x ∷ xs) h passes = elim (Bool-cases (text_eq x.id id)) [
  | inl t ↦
      let same : x ≡ sale = cc (rw t at h) in
      let kept : q x ≡ true = ap q same ∙ passes in rw (kept, t) (ap some same)
  | inr f ↦
      if-cases (λ (ys : List SaleRow). find_sale id ys ≡ some sale) (q x)
        (λ _. rw f (find_sale-select q id sale xs (rw f at h) passes))
        (λ _. find_sale-select q id sale xs (rw f at h) passes)
]

module _ (r : RedisServer) (pg : Postgres) where
  -- Loading other sales leaves a loaded one as it is.
  warm_sales-keeps :
      (t : Tables) (sales : List SaleRow) (id : Text) (g : Gate) (s : r.Store)
      → any (λ x. text_eq x.id id) sales ≡ false
      → IsWarm r id g s
      → IsWarm r id g (warm_sales r pg t sales s)
  unfolding warm_sales
  warm_sales-keeps t [] id g s h w = w
  warm_sales-keeps t (sale ∷ sales) id g s h w =
      let other : text_eq sale.id id ≡ false = ground (arith, h) in
      let frame : (k : KeyKind)
          → r.read (sync_sale r (input_of sale) (buyer_emails r pg t sale.id) s) (sale_key k id)
            ≡ r.read s (sale_key k id) =
        λ k. sync_sale-frame r (input_of sale) (buyer_emails r pg t sale.id) s k id other in
      warm_sales-keeps t sales id g _ (ground (arith, h)) (record {
        stock_key = frame stock ∙ w.stock_key;
        meta_key = frame meta ∙ w.meta_key;
        buyers_key = frame buyers ∙ w.buyers_key;
      })

  warm_sales-IsWarm :
      (t : Tables) (sales : List SaleRow) (id : Text) (sale : SaleRow) (s : r.Store)
      → IsKeyed sales
      → find_sale id sales ≡ some sale
      → IsWarm r id (gate_of (input_of sale) (buyer_emails r pg t id)) (warm_sales r pg t sales s)
  unfolding warm_sales find_sale
  warm_sales-IsWarm t [] id sale s keyed h = absurd (cc h)
  warm_sales-IsWarm t (x ∷ xs) id sale s keyed h = elim (Bool-cases (text_eq x.id id)) [
    | inl hit ↦
        let same : x ≡ sale = cc (rw hit at h) in
        let w =
          warm_sales-keeps t xs x.id (gate_of (input_of x) (buyer_emails r pg t x.id)) _ keyed.0
            (sync_sale-IsWarm r (input_of x) (buyer_emails r pg t x.id) s) in
        let loaded = warm_sales r pg t xs (sync_sale r (input_of x) (buyer_emails r pg t x.id) s) in
        subst (λ (y : SaleRow). IsWarm r id (gate_of (input_of y) (buyer_emails r pg t id)) loaded)
          same
          (subst (λ (y : Text). IsWarm r y (gate_of (input_of x) (buyer_emails r pg t y)) loaded)
            ((text_eq_iff x.id id).0 hit) w)
    | inr miss ↦ warm_sales-IsWarm t xs id sale _ keyed.1 (rw miss at h)
  ]

  -- If the ids of the sales are unique, the script loads every sale that is not cancelled and has
  -- not ended: Redis then holds it as the database does, its buyers included, whatever Redis held
  -- before.
  pub warm-IsWarm :
      (t : Tables) (now : ℕ) (id : Text) (sale : SaleRow) (s : r.Store)
      → IsKeyed t.sales
      → find_sale id t.sales ≡ some sale
      → is_warmed now sale ≡ true
      → IsWarm r id (gate_of (input_of sale) (buyer_emails r pg t id)) (warm r pg t now s)
  unfolding warm
  warm-IsWarm t now id sale s keyed found open_sale = rw (pg.sales_where_law t (is_warmed now)) (
      warm_sales-IsWarm t (select (is_warmed now) t.sales) id sale s
        (select-IsKeyed (is_warmed now) t.sales keyed)
        (find_sale-select (is_warmed now) id sale t.sales found open_sale))
