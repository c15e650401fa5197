-- ===== src/Examples/AtService.antt =====
-- The theorems about the orders and the reconnects of apps/api at concrete inputs.
use sd_flash_sale.Prelude.{
  ℕ, ◌≡◌, refl, true, false, select, Bool, List, [], ◌∷◌, Text, codes, text_eq, text_eq_comm, ◌∙◌,
  contains, count, if-cases, if◌then◌else◌, arith,
}
use sd_flash_sale.Contract.{PurchaseRecord}
use sd_flash_sale.Redis.Keys.{stock, sale_key, sale_stock}
use sd_flash_sale.Redis.Server.{absent_entry, string_entry, number}
use sd_flash_sale.Redis.Sync.{ScanPage}
use sd_flash_sale.Redis.Sync.Flush.{IsFullScan, seen}
use sd_flash_sale.Database.Schema.{Tables, is_purchase_of}
use sd_flash_sale.Api.Outage.{errs, closes, on_ready, observe, redis_provider}
use sd_flash_sale.Api.Outage.Swept.{closed_since, on_ready-sweeps}
use sd_flash_sale.Api.Purchases.Orders.{
  PurchaseQueries, Query, Direction, asc, desc, in_order, IsOrdered, JoinedPurchase,
  joined_purchases, find_by_email,
}
use sd_flash_sale.Api.Purchases.Orders.Complete.{IsReferring, IsDescending, find_by_email_complete}
use sd_flash_sale.Examples.RedisStub.{redis, Store}
use sd_flash_sale.Examples.DatabaseStub.{sale_id, ann, tables}

abbrev blank : Store
blank k = absent_entry

-- A stock count from before the outage
abbrev stale : Store
stale k = if text_eq (sale_stock sale_id) k then string_entry (number 2) else absent_entry

abbrev pages : List ScanPage
pages = record { cursor = codes "0"; keys = sale_stock sale_id ∷ [] } ∷ []

unseen-absent : (k : Text) → contains (seen pages) k ≡ false → stale k ≡ absent_entry
unfolding seen contains text_eq
unseen-absent k unseen =
    let other : text_eq (sale_stock sale_id) k ≡ false =
      text_eq_comm (sale_stock sale_id) k ∙ ground (arith, unseen) in
    rw other refl

full : IsFullScan redis pages stale
unfolding text_eq
full = record { ends = refl; complete = λ k matches unseen. unseen-absent k unseen }

on_ready-sweeps_example :
    redis.read
      (on_ready redis pages stale
        (observe redis (closes ∷ errs ∷ []) (redis_provider redis blank))).store
      (sale_key stock sale_id)
    ≡ (if closed_since redis (closes ∷ errs ∷ []) false
        then absent_entry
        else redis.read stale (sale_key stock sale_id))
on_ready-sweeps_example =
    on_ready-sweeps redis (closes ∷ errs ∷ []) blank stale pages stock sale_id full

in_order_total :
    (direction : Direction) (a b : ℕ)
    → in_order direction a b ≡ false
    → in_order direction b a ≡ true
in_order_total asc a b later = ground (arith, later)
in_order_total desc a b later = ground (arith, later)

-- Rows in the order that a query asks for
module _ (query : Query) where
  abbrev is_first : JoinedPurchase → JoinedPurchase → Bool
  is_first x y = in_order query.direction (query.order_key x) (query.order_key y)

  abbrev place : JoinedPurchase → List JoinedPurchase → List JoinedPurchase
  place x [] = x ∷ []
  place x (y ∷ ys) = let rest = place x ys in if is_first x y then x ∷ y ∷ ys else y ∷ rest

  abbrev sorted : List JoinedPurchase → List JoinedPurchase
  sorted [] = []
  sorted (x ∷ xs) = place x (sorted xs)

  count-place :
      (q : JoinedPurchase → Bool) (x : JoinedPurchase) (ys : List JoinedPurchase)
      → count q (place x ys) ≡ count q (x ∷ ys)
  count-place q x [] = refl
  count-place q x (y ∷ ys) = ground (arith, count-place q x ys)

  count-sorted :
      (q : JoinedPurchase → Bool) (xs : List JoinedPurchase) → count q (sorted xs) ≡ count q xs
  count-sorted q [] = refl
  count-sorted q (x ∷ xs) = ground (arith, count-place q x (sorted xs), count-sorted q xs)

  abbrev IsSorted : List JoinedPurchase → Type 0
  IsSorted = IsOrdered query.direction query.order_key

  -- Behind a row that does not come later, the other rows stay in order.
  place-behind :
      (x y : JoinedPurchase) (ys : List JoinedPurchase)
      → is_first y x ≡ true
      → IsSorted (y ∷ ys)
      → IsSorted (y ∷ place x ys)
  place-behind x y [] earlier h = (earlier, tt)
  place-behind x y (z ∷ zs) earlier h =
      if-cases (λ (l : List JoinedPurchase). IsSorted (y ∷ l)) (is_first x z)
        (λ first. (earlier, (first, h.1)))
        (λ later. (h.0, place-behind x z zs (in_order_total query.direction _ _ later) h.1))

  place-IsSorted :
      (x : JoinedPurchase) (ys : List JoinedPurchase) → IsSorted ys → IsSorted (place x ys)
  place-IsSorted x [] h = tt
  place-IsSorted x (y ∷ ys) h =
      if-cases IsSorted (is_first x y) (λ first. (first, h))
        (λ later. place-behind x y ys (in_order_total query.direction _ _ later) h)

  sorted-IsSorted : (xs : List JoinedPurchase) → IsSorted (sorted xs)
  sorted-IsSorted [] = tt
  sorted-IsSorted (x ∷ xs) = place-IsSorted x (sorted xs) (sorted-IsSorted xs)

abbrev rows_of : Query → Tables → List JoinedPurchase
rows_of query t =
    joined_purchases query.on_sale query.on_product t (select query.where_purchase t.purchases)

abbrev queries : PurchaseQueries
queries = record {
  answer = λ query t. sorted query (rows_of query t);
  answer_rows = λ query t q. count-sorted query q (rows_of query t);
  answer_order = λ query t. sorted-IsSorted query (rows_of query t);
}

abbrev sold_one : Tables
sold_one = record tables {
  purchases =
      record { id = codes "b1"; sale_id = sale_id; email = ann; purchased_at = 150 }
      ∷ record { id = codes "b2"; sale_id = sale_id; email = codes "bob@x.io"; purchased_at = 160 }
      ∷ [];
}

refers : IsReferring sold_one
unfolding text_eq
refers = ((refl, (refl, tt)), (refl, tt))

find_by_email_complete_example :
    let records = find_by_email queries sold_one (codes "ann@x.io") in
    (count (λ (p : PurchaseRecord). text_eq p.sale_id sale_id) records
      ≡ count (is_purchase_of sale_id (codes "ann@x.io")) sold_one.purchases)
    × IsDescending (λ (p : PurchaseRecord). p.purchased_at) records
find_by_email_complete_example =
    find_by_email_complete queries sold_one sale_id (codes "ann@x.io") refers
