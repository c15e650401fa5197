-- ===== src/Web/Purchase.antt =====
-- apps/web/src/hooks/usePurchase/usePurchase.ts. A post that is aborted, when the component goes away,
-- fails like any other.
pub mod Once
use sd_flash_sale.Prelude.{
  ℕ, ◌+◌, ◌-◌, Bool, true, false, List, [], ◌∷◌, Option, none, some, ◌==◌, if◌then◌else◌,
}
use sd_flash_sale.Contract.{PurchaseResult}

-- `posts` counts the requests that wait for their answer.
pub record PurchaseState (E : Type 0) : Type 0 where
  pub result : Option PurchaseResult
  pub error : Option E
  pub is_submitting : Bool
  pub in_flight : Bool
  pub posts : ℕ

pub data Event (E : Type 0) : Type 0 where
  submits : Event E
  answers : PurchaseResult → Event E
  fails : E → Event E

module _ {E : Type 0} where
  unfoldable pub use_purchase : PurchaseState E
  use_purchase = record {
    result = none;
    error = none;
    is_submitting = false;
    in_flight = false;
    posts = 0;
  }

  -- `submit`, up to its `await`
  unfoldable pub submit : PurchaseState E → PurchaseState E
  submit s =
      if s.in_flight
      then s
      else record s { in_flight = true; is_submitting = true; error = none; posts = s.posts + 1 }

  -- The `finally`
  unfoldable pub finish : PurchaseState E → PurchaseState E
  finish s = record s { in_flight = false; is_submitting = false; posts = s.posts - 1 }

  -- The rest of the `try`
  unfoldable pub succeed : PurchaseResult → PurchaseState E → PurchaseState E
  unfolding finish
  succeed outcome s = finish (record s { result = some outcome })

  -- The `catch`
  unfoldable pub fail : E → PurchaseState E → PurchaseState E
  unfolding finish
  fail cause s = finish (record s { error = some cause; result = none })

  unfoldable pub step : Event E → PurchaseState E → PurchaseState E
  step submits s = submit s
  step (answers outcome) s = if s.posts == 0 then s else succeed outcome s
  step (fails cause) s = if s.posts == 0 then s else fail cause s

  unfoldable pub run : List (Event E) → PurchaseState E → PurchaseState E
  run [] s = s
  run (e ∷ es) s = run es (step e s)
