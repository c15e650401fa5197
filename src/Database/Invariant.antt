-- ===== src/Database/Invariant.antt =====
-- What every transaction keeps of the tables of packages/database/src/schema: each sale's stock and
-- purchases add up to its total, and no address has two purchases of one sale.
use mathlib.Core.Path.{fun_ext}
use mathlib.Core.Option
use sd_flash_sale.Prelude.{
  ℕ, ◌+◌, ◌-◌, ◌≤◌, ◌≡◌, ap, Bool, true, false, List, [], ◌∷◌, some, Text, text_eq, text_eq_iff,
  to_lower_case, count, count-eq-zero, any, if◌then◌else◌, arith, inl, inr, Bool-cases,
}
use sd_flash_sale.Database.Schema.{SaleRow, PurchaseRow, Tables, find_sale, is_purchase_of}
use sd_flash_sale.Database.Server.{set_stock, add_purchase}

-- The purchases of a sale.
abbrev pub sold : Text → List PurchaseRow → ℕ
sold id = count (λ p. text_eq p.sale_id id)

-- Inside a transaction a sale may have purchases whose units are still to be taken off its stock.
pub record IsConsistentBy (owed : Text → ℕ) (t : Tables) : Type 0 where
  pub balanced :
      (id : Text) (sale : SaleRow)
      → find_sale id t.sales ≡ some sale
      → sale.remaining_stock + sold id t.purchases ≡ sale.total_stock + owed id
  pub once : (id email : Text) → count (is_purchase_of id email) t.purchases ≤ 1

abbrev pub IsConsistent : Tables → Type 0
IsConsistent = IsConsistentBy (λ id. 0)

abbrev pub one_if : Bool → ℕ
one_if b = if b then 1 else 0

-- Two purchases of one sale by one buyer are the same to the unique index.
is_purchase_of-congr :
    (p q : PurchaseRow) (id email : Text)
    → is_purchase_of id email p ≡ true
    → is_purchase_of p.sale_id p.email q ≡ is_purchase_of id email q
is_purchase_of-congr p q id email h = cc (
  (text_eq_iff p.sale_id id).0 (ground arith),
  (text_eq_iff (to_lower_case p.email) (to_lower_case email)).0 (ground arith),
)

add_purchase-once :
    (ps : List PurchaseRow) (p : PurchaseRow) (id email : Text)
    → any (is_purchase_of p.sale_id p.email) ps ≡ false
    → count (is_purchase_of id email) ps ≤ 1
    → count (is_purchase_of id email) (p ∷ ps) ≤ 1
add_purchase-once ps p id email fresh one = elim (Bool-cases (is_purchase_of id email p)) [
  | inl same ↦
      let e : count (is_purchase_of p.sale_id p.email) ps ≡ count (is_purchase_of id email) ps =
        ap (λ f. count f ps) (fun_ext λ q. is_purchase_of-congr p q id email same) in
      rw (same, ← e, count-eq-zero (is_purchase_of p.sale_id p.email) ps fresh) (omega arith)
  | inr differ ↦ rw differ one
]

-- An accepted row leaves one unit owed by its sale.
pub add_purchase-IsConsistentBy :
    (owed : Text → ℕ) (t : Tables) (p : PurchaseRow)
    → any (is_purchase_of p.sale_id p.email) t.purchases ≡ false
    → IsConsistentBy owed t
    → IsConsistentBy (λ id. owed id + one_if (text_eq p.sale_id id)) (add_purchase t p)
add_purchase-IsConsistentBy owed t p fresh c = record {
  balanced = λ id sale e. ground (arith, c.balanced id sale e);
  once = λ id email. add_purchase-once t.purchases p id email fresh (c.once id email);
}

abbrev pub with_stock : ℕ → SaleRow → SaleRow
with_stock n sale = record sale { remaining_stock = n }

pub find_sale-set_stock :
    (id j : Text) (n : ℕ) (rows : List SaleRow)
    → find_sale j (set_stock id n rows)
      ≡ (if text_eq id j then Option.map (with_stock n) (find_sale j rows) else find_sale j rows)
unfolding find_sale set_stock
find_sale-set_stock id j n [] = ground arith
find_sale-set_stock id j n (row ∷ rows) = elim (Bool-cases (text_eq row.id id)) [
  | inl hit ↦ rw (hit, (text_eq_iff row.id id).0 hit) (ground arith)
  | inr miss ↦ rw miss (ground (arith, find_sale-set_stock id j n rows, text_eq_iff id j))
]

-- A decrement pays units that a sale owes.
pub set_stock-IsConsistentBy :
    (owed : Text → ℕ) (t : Tables) (id : Text) (n : ℕ) (sale : SaleRow)
    → find_sale id t.sales ≡ some sale
    → n ≤ sale.remaining_stock
    → IsConsistentBy (λ j. owed j + (if text_eq id j then n else 0)) t
    → IsConsistentBy owed (record t { sales = set_stock id (sale.remaining_stock - n) t.sales })
set_stock-IsConsistentBy owed t id n sale found enough c = record {
  balanced = λ j row e. elim (Bool-cases (text_eq id j)) [
    | inl same ↦ ground (
      arith,
      c.balanced id sale found,
      find_sale-set_stock id j (sale.remaining_stock - n) t.sales,
      text_eq_iff id j,
    )
    | inr differ ↦
        ground
          (arith, c.balanced j row, find_sale-set_stock id j (sale.remaining_stock - n) t.sales)
  ];
  once = c.once;
}
