-- ===== src/Api/Purchases/Write.antt =====
-- The synchronous write of apps/api/src/purchases/purchases.service.ts, with purchases.constants.ts and
-- purchases.exceptions.ts.
pub mod Outcomes
use sd_flash_sale.Prelude.{ℕ, Option, none, some, Text, codes, ltb, if◌then◌else◌}
use sd_flash_sale.Prelude.Result.{Result, ok, throws}
use sd_flash_sale.Contract.{PurchaseResult, PurchaseOutcome}
use sd_flash_sale.Database.Schema.{
  PurchaseRow, Tables, unique_violation, purchase_outside_sale_window,
}
use sd_flash_sale.Database.Server.{Postgres, Thrown, CommitFault, Body}
use sd_flash_sale.Api.PgError.{is_pg_error_with_code}

abbrev pub success_result : PurchaseResult
success_result = record {
  status = PurchaseOutcome.success;
  message = codes "You've successfully secured your item!";
}

abbrev pub already_purchased_result : PurchaseResult
already_purchased_result = record {
  status = PurchaseOutcome.already_purchased;
  message = codes "You have already purchased this item.";
}

abbrev pub sold_out_result : PurchaseResult
sold_out_result = record {
  status = PurchaseOutcome.sold_out;
  message = codes "Sorry, this item is sold out.";
}

abbrev pub sale_not_active_result : PurchaseResult
sale_not_active_result = record {
  status = PurchaseOutcome.sale_not_active;
  message = codes "This sale is not currently active.";
}

-- What leaves the transaction: `SoldOutError`, or what the database threw.
pub data WriteError : Type 0 where
  sold_out_error : WriteError
  database : Thrown → WriteError

abbrev pub or_sold_out : Tables × Option ℕ → Result WriteError (Unit {0} × Tables)
or_sold_out (t, none) = throws sold_out_error
or_sold_out (t, some left) = ok (tt, t)

-- The `catch` block, and the return behind the transaction.
unfoldable pub caught :
    Result WriteError (Unit {0}) × Tables → Result Thrown PurchaseResult × Tables
caught (ok done, t) = (ok success_result, t)
caught (throws sold_out_error, t) = (ok sold_out_result, t)
caught (throws (database error), t) =
    if is_pg_error_with_code error unique_violation
    then (ok already_purchased_result, t)
    else if is_pg_error_with_code error purchase_outside_sale_window
    then (ok sale_not_active_result, t)
    else (throws error, t)

module _ (pg : Postgres) where
  open pg use {new_id, insert, decrement, transaction}

  -- `purchased_at` defaults to the database's `now()`.
  abbrev pub purchase_row : Text → Text → ℕ → PurchaseRow
  purchase_row sale_id email now = record {
    id = new_id sale_id email;
    sale_id = sale_id;
    email = email;
    purchased_at = now;
  }

  unfoldable pub take_one : Text → Result Thrown Tables → Result WriteError (Unit {0} × Tables)
  take_one sale_id (throws e) = throws (database e)
  take_one sale_id (ok t) = or_sold_out (decrement t sale_id (λ stock. ltb 0 stock) 1)

  unfoldable pub write_body : Text → Text → ℕ → Body WriteError (Unit {0})
  unfolding take_one
  write_body sale_id email now t = take_one sale_id (insert t (purchase_row sale_id email now))

  -- Insert first, decrement second.
  unfoldable pub write_purchase :
      Option CommitFault → ℕ → Text → Text → Tables → Result Thrown PurchaseResult × Tables
  unfolding write_body caught
  write_purchase commit now sale_id email t =
      caught (transaction WriteError (Unit {0}) database commit (write_body sale_id email now) t)
