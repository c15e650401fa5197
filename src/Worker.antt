-- ===== src/Worker.antt =====
-- apps/worker/src/main.ts: what the worker hands to `drainPurchaseWrites`, and how it shuts down.
use sd_flash_sale.Prelude.{
  ℕ, Bool, true, List, [], ◌∷◌, ◌++◌, Option, none, some, Text, if◌then◌else◌,
}
use sd_flash_sale.Prelude.Result.{Result, ok, throws}
use sd_flash_sale.Database.Schema.{Tables}
use sd_flash_sale.Database.Server.{Postgres, Thrown, CommitFault}
use sd_flash_sale.Database.WriteBatch.{PurchaseWriteEntry, write_purchase_batch}

-- `Number` is a parameter; it gives none for NaN.
unfoldable pub optional_number_env : (Text → Option ℕ) → Option Text → Option ℕ
optional_number_env number none = none
optional_number_env number (some []) = none
optional_number_env number (some (c ∷ raw)) = number (c ∷ raw)

abbrev pub forget_count : Result Thrown ℕ × Tables → Result Thrown (Unit {0}) × Tables
forget_count (ok written, t) = (ok tt, t)
forget_count (throws e, t) = (throws e, t)

-- `writeBatch`
unfoldable pub write_batch :
    Postgres
    → Option CommitFault
    → List PurchaseWriteEntry
    → Tables
    → Result Thrown (Unit {0}) × Tables
write_batch pg commit entries t = forget_count (write_purchase_batch pg commit entries t)

-- What a shutdown does, in its order
pub data Teardown : Type 0 where
  stop_drain close_queue end_pool exit : Teardown

pub record Worker : Type 0 where
  pub has_handle : Bool
  pub shutting_down : Bool
  pub torn_down : List Teardown

-- `shutdown`, for each signal
unfoldable pub shutdown : Worker → Worker
shutdown w = if w.shutting_down then w else record w {
  shutting_down = true;
  torn_down = (if w.has_handle then stop_drain ∷ [] else []) ++ close_queue ∷ end_pool ∷ exit ∷ [];
}
