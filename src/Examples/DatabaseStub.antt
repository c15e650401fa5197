-- ===== src/Examples/DatabaseStub.antt =====
-- A database and a cache that do what their interfaces say, and tables with two sales.
use sd_flash_sale.Prelude.{
  ℕ, ◌+◌, ◌≤◌, ◌≡◌, refl, [], ◌∷◌, ◌++◌, Option, none, some, Text, codes, text_eq, text_eq_refl,
  if◌then◌else◌, arith, Bool-cases, inl, inr, leb, select,
}
use sd_flash_sale.Prelude.Result.{Result, ok, throws}
use sd_flash_sale.Database.Schema.{ProductRow, PurchaseRow, Tables, find_sale}
use sd_flash_sale.Database.Schema
use sd_flash_sale.Database.Server.{
  Postgres, Thrown, CommitFault, rolled_back, unanswered, inserted, inserted_new, decremented,
  selected_sales, Body,
}
use sd_flash_sale.Database.Invariant.{IsConsistent}
use sd_flash_sale.Api.Sales.Utils.{SaleRow}
use sd_flash_sale.Api.Sales.Service.{CacheManager}

abbrev pub committed :
    {E A : Type 0}
    → (Thrown → E)
    → Option CommitFault
    → Tables
    → Result E (A × Tables)
    → Result E A × Tables
committed lift none t (ok (a, u)) = (ok a, u)
committed lift (some (rolled_back e)) t (ok (a, u)) = (throws (lift e), t)
committed lift (some (unanswered e)) t (ok (a, u)) = (throws (lift e), u)
committed lift commit t (throws e) = (throws e, t)

abbrev pub transact :
    (E A : Type 0) → (Thrown → E) → Option CommitFault → Body E A → Tables → Result E A × Tables
transact E A lift commit body t = committed lift commit t (body t)

pub transact-throws :
    (E A : Type 0) (lift : Thrown → E) (commit : Option CommitFault) (body : Body E A) (t : Tables)
    (e : E)
    → body t ≡ throws e
    → transact E A lift commit body t ≡ (throws e, t)
transact-throws E A lift none body t e h = rw h refl
transact-throws E A lift (some (rolled_back x)) body t e h = rw h refl
transact-throws E A lift (some (unanswered x)) body t e h = rw h refl

abbrev pub postgres : Postgres
postgres = record {
  new_id = λ sale_id email. sale_id ++ email;
  insert = inserted;
  insert_new = inserted_new;
  decrement = decremented;
  select_sales = λ t test. selected_sales t.products t.sales test;
  sales_where = λ t test. select test t.sales;
  purchases_where = λ t test. select test t.purchases;
  sales_where_law = λ t test. refl;
  purchases_where_law = λ t test. refl;
  transaction = transact;
  insert_law = λ t p. refl;
  insert_new_law = λ t ps. refl;
  decrement_law = λ t id test n. refl;
  select_sales_law = λ t test. refl;
  transaction_ok = λ E A lift body t u a h. rw h refl;
  transaction_throws = transact-throws;
  transaction_fails = λ E A lift e body t u a h. rw h refl;
  transaction_unanswered = λ E A lift e body t u a h. rw h refl;
}

abbrev pub Cache : Type 0
Cache = Text → Option (SaleRow × ℕ)

abbrev pub alive : Option (SaleRow × ℕ) → ℕ → Option SaleRow
alive none now = none
alive (some (row, until)) now = if leb now until then some row else none

pub alive-some :
    (row : SaleRow) (until later : ℕ) {found : SaleRow}
    → alive (some (row, until)) later ≡ some found
    → (found ≡ row) × (later ≤ until)
alive-some row until later h = elim (Bool-cases (leb later until)) [
  | inl t ↦ (cc (rw t at h), ground arith)
  | inr f ↦ absurd (cc (rw f at h))
]

abbrev pub cache_manager : CacheManager
cache_manager = record {
  Cache = Cache;
  get = λ c k now. alive (c k) now;
  set = λ c k row ttl now j. if text_eq k j then some (row, now + ttl) else c j;
  get-set = λ c k row ttl now later h. alive-some row (now + ttl) later (rw (text_eq_refl k) at h);
  get-set_ne = λ c k j row ttl now later h. rw h refl;
}

abbrev pub sale_id : Text
sale_id = codes "s1"

abbrev pub other_id : Text
other_id = codes "s2"

abbrev pub ann : Text
ann = codes "Ann@x.io"

abbrev pub bob : Text
bob = codes "bob@x.io"

abbrev pub product_row : ProductRow
product_row = record {
  id = codes "p1";
  name = codes "Lamp";
  description = none;
  image_url = none;
  price = codes "20.00";
}

abbrev pub sale_row : Schema.SaleRow
sale_row = record {
  id = sale_id;
  product_id = codes "p1";
  total_stock = 2;
  remaining_stock = 2;
  sale_price = codes "9.00";
  starts_at = 100;
  ends_at = 200;
  cancelled_at = none;
}

abbrev pub tables : Tables
tables = record { products = product_row ∷ []; sales = sale_row ∷ []; purchases = [] }

pub sale_row-found : find_sale sale_id tables.sales ≡ some sale_row
unfolding find_sale text_eq
sale_row-found = refl

only_sale :
    (id : Text) (sale : Schema.SaleRow) → find_sale id tables.sales ≡ some sale → sale_row ≡ sale
unfolding find_sale
only_sale id sale h = elim (Bool-cases (text_eq sale_id id)) [
  | inl t ↦ cc (rw t at h)
  | inr f ↦ absurd (cc (rw f at h))
]

pub tables-IsConsistent : IsConsistent tables
tables-IsConsistent = record {
  balanced = λ id sale h. rw (← only_sale id sale h) refl;
  once = λ id email. omega arith;
}

pub tables-room :
    (n : ℕ)
    → n ≤ 2
    → (id : Text) (sale : Schema.SaleRow) → find_sale id tables.sales ≡ some sale
    → n ≤ sale.remaining_stock
tables-room n le id sale h = rw (← only_sale id sale h) le
