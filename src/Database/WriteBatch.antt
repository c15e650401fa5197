-- ===== src/Database/WriteBatch.antt =====
-- packages/database/src/write-purchases.ts: one worker batch in one transaction.
pub mod Balance
pub mod Redelivery
pub mod Progress
pub mod Complete
use sd_flash_sale.Prelude.{
  ℕ, suc, Bool, List, [], ◌∷◌, map, Option, none, some, Text, text_eq, if◌then◌else◌, leb, length,
}
use sd_flash_sale.Prelude.Result.{Result, ok, throws, ◌>>=◌}
use sd_flash_sale.Database.Schema.{PurchaseRow, Tables}
use sd_flash_sale.Database.Server.{Postgres, Thrown, CommitFault, object, Body}

pub record PurchaseWriteEntry : Type 0 where
  pub sale_id : Text
  pub email : Text
  pub reserved_at : ℕ

-- `countBySale.set(id, (countBySale.get(id) ?? 0) + 1)`; a Map keeps the order of insertion
unfoldable pub bump : Text → List (Text × ℕ) → List (Text × ℕ)
bump id [] = (id, 1) ∷ []
bump id ((j, n) ∷ counts) = if text_eq j id then (j, suc n) ∷ counts else (j, n) ∷ bump id counts

unfoldable pub count_by_sale : List (Text × ℕ) → List Text → List (Text × ℕ)
count_by_sale counts [] = counts
count_by_sale counts (id ∷ ids) = count_by_sale (bump id counts) ids

-- `new Error("writePurchaseBatch: … would go negative.")`
abbrev pub would_go_negative : Thrown
would_go_negative = object none

-- `if (!updated) throw`
abbrev pub unless_short : Tables × Option ℕ → (Tables → Result Thrown Tables) → Result Thrown Tables
unless_short (t, none) rest = throws would_go_negative
unless_short (t, some left) rest = rest t

abbrev pub identity : Thrown → Thrown
identity e = e

module _ (pg : Postgres) where
  open pg use {new_id, insert_new, decrement, transaction}

  unfoldable pub entry_row : PurchaseWriteEntry → PurchaseRow
  entry_row entry = record {
    id = new_id entry.sale_id entry.email;
    sale_id = entry.sale_id;
    email = entry.email;
    purchased_at = entry.reserved_at;
  }

  -- The loop over `countBySale`
  unfoldable pub take_counts : List (Text × ℕ) → Tables → Result Thrown Tables
  take_counts [] t = ok t
  take_counts ((id, n) ∷ counts) t = unless_short (decrement t id (leb n) n) (take_counts counts)

  unfoldable pub batch_body : List PurchaseWriteEntry → Body Thrown ℕ
  unfolding take_counts entry_row
  batch_body entries t = do
    (t', ids) ← insert_new t (map entry_row entries)
    t'' ← take_counts (count_by_sale [] ids) t'
    ok (length ids, t'')

  unfoldable pub write_purchase_batch :
      Option CommitFault → List PurchaseWriteEntry → Tables → Result Thrown ℕ × Tables
  unfolding batch_body
  write_purchase_batch commit [] t = (ok 0, t)
  write_purchase_batch commit (entry ∷ entries) t =
      transaction Thrown ℕ identity commit (batch_body (entry ∷ entries)) t
