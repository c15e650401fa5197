-- ===== src/LoadTest/Client.antt =====
-- packages/load-test/k6/lib/client.ts and metrics.ts, with the outcome table of summary.ts: what a simulated
-- buyer takes from the API's replies, and how its purchases are counted. A reply's JSON is any value;
-- `undefined` is none. Durations are counted, not added up. A status that is no text is an unknown one.
pub mod Counted
use sd_flash_sale.Prelude.{
  ℕ, suc, ◌+◌, Bool, true, false, ◌&&◌, List, [], ◌∷◌, ◌++◌, map, Option, none, some, Text, codes,
  text_eq, is_some, select, ltb, ◌==◌, if◌then◌else◌,
}
use sd_flash_sale.Prelude.Json.{Value, null, other, text, array, object, last, member}
use sd_flash_sale.Prelude.Result.{Result, ok, throws}
use sd_flash_sale.Contract.{PurchaseOutcome, success, already_purchased, sold_out, sale_not_active}

-- A reply's status, and its JSON, if it is one
pub record Reply : Type 0 where
  pub status : ℕ
  pub json : Option Value

-- `Counter`s and `Trend`s, by how often they were added to
pub record Metrics : Type 0 where
  pub outcomes : PurchaseOutcome → ℕ
  pub purchase_errors : ℕ
  pub list_sales_durations : ℕ
  pub get_sale_durations : ℕ
  pub purchase_durations : ℕ

-- The checks of one reply, by their names
abbrev pub Checks : Type 0
Checks = List (Text × Bool)

unfoldable pub parse_envelope : Reply → Option Value
parse_envelope res = if res.status == 200 then res.json else none

-- `body?.data`
abbrev pub content_of : Option Value → Option Value
content_of none = none
content_of (some body) = member (codes "data") body

-- `value.name`: of null and undefined it throws.
abbrev pub property : Text → Option Value → Result (Unit {0}) (Option Value)
property name none = throws tt
property name (some null) = throws tt
property name (some value) = ok (member name value)

-- `body?.data.name`
unfoldable pub content_property : Text → Option Value → Result (Unit {0}) (Option Value)
content_property name none = ok none
content_property name (some null) = ok none
content_property name (some body) = property name (member (codes "data") body)

abbrev pub is_truthy : Option Value → Bool
is_truthy none = false
is_truthy (some null) = false
is_truthy (some (other n)) = ltb 0 n
is_truthy (some (text [])) = false
is_truthy (some value) = true

abbrev pub is_array : Option Value → Bool
is_array (some (array elements)) = true
is_array _ = false

unfoldable pub get_health : Reply → Bool
get_health res = res.status == 200

abbrev pub sales_url : Text → Option Text → Text
sales_url base_url none = base_url ++ codes "/sales"
sales_url base_url (some []) = base_url ++ codes "/sales"
sales_url base_url (some (c ∷ status)) = base_url ++ (codes "/sales?status=" ++ c ∷ status)

-- `body?.data ?? []`
abbrev pub sales_or_none : Option Value → Value
sales_or_none none = array last
sales_or_none (some null) = array last
sales_or_none (some sales) = sales

unfoldable pub list_sales : Reply → Metrics → Value × Checks × Metrics
unfolding parse_envelope
list_sales res m =
    let body = parse_envelope res in
    (
      sales_or_none (content_of body),
      (codes "GET /sales: responds 200", res.status == 200)
          ∷ (codes "GET /sales: envelope data is an array", is_array (content_of body))
          ∷ [],
      record m { list_sales_durations = suc m.list_sales_durations },
    )

abbrev pub is_text : Text → Option Value → Bool
is_text s (some (text t)) = text_eq t s
is_text s _ = false

-- What a request gives, with its checks, or what it throws
abbrev pub Answer : Type 0
Answer = Result (Unit {0}) (Option Value × Checks)

unfoldable pub get_sale_by_id : Text → Reply → Metrics → Answer × Metrics
unfolding parse_envelope content_property
get_sale_by_id id res m =
    let body = parse_envelope res in
    (
      elim (content_property (codes "id") body) [
        | ok found ↦ ok (
          content_of body,
          (codes "GET /sales/:id: responds 200", res.status == 200)
              ∷ (codes "GET /sales/:id: envelope data matches the requested id", is_text id found)
              ∷ [],
        )
        | throws e ↦ throws e
      ],
      record m { get_sale_durations = suc m.get_sale_durations },
    )

abbrev pub same_outcome : PurchaseOutcome → PurchaseOutcome → Bool
same_outcome success success = true
same_outcome already_purchased already_purchased = true
same_outcome sold_out sold_out = true
same_outcome sale_not_active sale_not_active = true
same_outcome _ _ = false

unfoldable pub record_purchase_outcome : PurchaseOutcome → Metrics → Metrics
record_purchase_outcome outcome m = record m {
  outcomes = λ o. if same_outcome outcome o then suc (m.outcomes o) else m.outcomes o;
}

unfoldable pub record_purchase_error : Metrics → Metrics
record_purchase_error m = record m { purchase_errors = suc m.purchase_errors }

abbrev pub outcome_name : PurchaseOutcome → Text
outcome_name success = codes "success"
outcome_name already_purchased = codes "already_purchased"
outcome_name sold_out = codes "sold_out"
outcome_name sale_not_active = codes "sale_not_active"

-- The outcome that a value names
unfoldable pub outcome_named : Option Value → Option PurchaseOutcome
outcome_named status =
    if is_text (outcome_name success) status
    then some success
    else if is_text (outcome_name already_purchased) status
    then some already_purchased
    else if is_text (outcome_name sold_out) status
    then some sold_out
    else if is_text (outcome_name sale_not_active) status
    then some sale_not_active
    else none

-- There is no counter of an unknown status, and `add` of none throws.
abbrev pub recorded : Option PurchaseOutcome → Option Value × Checks → Metrics → Answer × Metrics
recorded none given m = (throws tt, m)
recorded (some outcome) given m = (ok given, record_purchase_outcome outcome m)

-- Behind `parseEnvelope`: what the check reads as the status, the body's data, and the checks
abbrev pub checked :
    Result (Unit {0}) (Option Value)
    → Option Value
    → (Option Value → Checks)
    → Metrics
    → Answer × Metrics
checked (throws e) content checks m = (throws e, m)
checked (ok status) content checks m =
    if is_truthy content
    then recorded (outcome_named status) (content, checks status) m
    else (ok (content, checks status), record_purchase_error m)

abbrev pub purchase_checks : Reply → Option Value → Checks
purchase_checks res status =
    (codes "POST /purchase: responds 200", res.status == 200)
    ∷ (codes "POST /purchase: envelope has a known status", is_some (outcome_named status))
    ∷ []

unfoldable pub purchase : Reply → Metrics → Answer × Metrics
unfolding parse_envelope content_property outcome_named record_purchase_outcome
    record_purchase_error
purchase res m =
    let body = parse_envelope res in
    checked (content_property (codes "status") body) (content_of body) (purchase_checks res)
      (record m { purchase_durations = suc m.purchase_durations })

unfoldable pub purchases : List Reply → Metrics → Metrics
unfolding purchase
purchases [] m = m
purchases (res ∷ rest) m = purchases rest (purchase res m).1

abbrev pub untouched : Metrics
untouched = record {
  outcomes = λ o. 0;
  purchase_errors = 0;
  list_sales_durations = 0;
  get_sale_durations = 0;
  purchase_durations = 0;
}

abbrev pub purchase_outcome_metric_names : List PurchaseOutcome
purchase_outcome_metric_names = success ∷ already_purchased ∷ sold_out ∷ sale_not_active ∷ []

-- The rows of `renderPurchaseOutcomeTable`; no table without one
unfoldable pub purchase_outcome_rows : Metrics → List (Text × ℕ)
purchase_outcome_rows m =
    select (λ row. ltb 0 row.1)
      (map (λ o. (outcome_name o, m.outcomes o)) purchase_outcome_metric_names
        ++ (codes "error", m.purchase_errors) ∷ [])
