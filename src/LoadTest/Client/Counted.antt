-- ===== src/LoadTest/Client/Counted.antt =====
-- Every simulated purchase is counted once, or its request throws.
use sd_flash_sale.Prelude.{
  ℕ, suc, ◌+◌, ◌≡◌, Bool, true, false, ◌&&◌, not, List, [], ◌∷◌, Option, none, some, Text, codes,
  length, count, if◌then◌else◌, is_some,
}
use sd_flash_sale.Prelude.Json.{Value, null, member}
use sd_flash_sale.Contract.{PurchaseOutcome, success, already_purchased, sold_out, sale_not_active}
use sd_flash_sale.LoadTest.Client.{
  Reply, Metrics, parse_envelope, content_of, is_truthy, outcome_named, same_outcome,
}

abbrev pub sum_of : List (Text × ℕ) → ℕ
sum_of [] = 0
sum_of ((name, n) ∷ rows) = n + sum_of rows

-- The five counters together
abbrev total : Metrics → ℕ
total m =
    m.outcomes success
    + m.outcomes already_purchased
    + m.outcomes sold_out
    + m.outcomes sale_not_active
    + m.purchase_errors

-- The outcome that a body's `data` has as its status
abbrev pub outcome_of : Option Value → Option PurchaseOutcome
outcome_of none = none
outcome_of (some content) = outcome_named (member (codes "status") content)

abbrev same : PurchaseOutcome → Option PurchaseOutcome → Bool
same o none = false
same o (some outcome) = same_outcome outcome o

-- A reply with status 200 whose body has this outcome
abbrev pub has_outcome : PurchaseOutcome → Reply → Bool
has_outcome o res = same o (outcome_of (content_of (parse_envelope res)))

-- A `data` that is missing or null, or that is there without a known status
abbrev pub is_bad : Option Value → Bool
is_bad none = true
is_bad (some null) = true
is_bad (some content) = is_truthy (some content) && not (is_some (outcome_of (some content)))

-- A reply with status 200 whose body is JSON other than null, with such a `data`
abbrev pub is_malformed_body : Option Value → Bool
is_malformed_body none = false
is_malformed_body (some null) = false
is_malformed_body (some body) = is_bad (member (codes "data") body)

abbrev pub is_malformed : Reply → Bool
is_malformed res = is_malformed_body (parse_envelope res)

-- What one purchase adds to the counters
record Adds (outcome : Option PurchaseOutcome) (malformed : Bool) (m n : Metrics) : Type 0 where
  all : total n + (if malformed then 1 else 0) ≡ suc (total m)
  each :
      (o : PurchaseOutcome)
      → n.outcomes o ≡ (if same o outcome then suc (m.outcomes o) else m.outcomes o)

record Counted (rest : List Reply) (m n : Metrics) : Type 0 where
  all : total n + count is_malformed rest ≡ total m + length rest
  each : (o : PurchaseOutcome) → n.outcomes o ≡ m.outcomes o + count (has_outcome o) rest
