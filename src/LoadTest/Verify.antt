-- ===== src/LoadTest/Verify.antt =====
-- `verify` of packages/load-test/scripts/verify.ts, on the sale and the purchases that its one
-- transaction reads. The texts in `detail` are left out.
pub mod Holds
use sd_flash_sale.Prelude.{
  ℕ, ◌+◌, Bool, true, ◌&&◌, List, [], ◌∷◌, ◌++◌, map, Option, none, some, Text, codes, text_eq,
  contains, length, select, leb, ◌==◌, if◌then◌else◌,
}
use sd_flash_sale.Prelude.Result.{Result, ok, throws}
use sd_flash_sale.Database.Schema.{SaleRow, PurchaseRow, Tables, find_sale}

pub record VerifyCheck : Type 0 where
  pub name : Text
  pub passed : Bool

pub record VerifyResult : Type 0 where
  pub all_passed : Bool
  pub checks : List VerifyCheck

pub data VerifyError : Type 0 where
  sale_not_found : VerifyError

-- `new Set(…)`
unfoldable pub distinct : List Text → List Text
distinct [] = []
distinct (e ∷ es) = let rest = distinct es in if contains es e then rest else e ∷ rest

abbrev pub every : List VerifyCheck → Bool
every [] = true
every (check ∷ checks) = check.passed && every checks

-- `total - remaining === length`, with the subtraction moved to the other side
abbrev pub checks_of : SaleRow → List PurchaseRow → List VerifyCheck
checks_of sale rows =
    record { name = codes "remaining_stock is never negative"; passed = leb 0 sale.remaining_stock }
    ∷ record {
      name = codes "stock decrement matches purchase count (no phantom decrements)";
      passed = sale.total_stock == length rows + sale.remaining_stock;
    }
    ∷ record {
      name = codes "no duplicate purchases (one email, one purchase)";
      passed = length (distinct (map (λ p. p.email) rows)) == length rows;
    }
    ∷ (if sale.remaining_stock == 0
        then record {
          name = codes "a sold-out sale sold exactly total_stock units, not more";
          passed = length rows == sale.total_stock;
        }
          ∷ []
        else [])

unfoldable pub verify_found : Option SaleRow → List PurchaseRow → Result VerifyError VerifyResult
verify_found none rows = throws sale_not_found
verify_found (some sale) rows =
    let checks = checks_of sale rows in ok (record { all_passed = every checks; checks = checks })

unfoldable pub verify : Text → Tables → Result VerifyError VerifyResult
unfolding verify_found
verify sale_id t =
    verify_found (find_sale sale_id t.sales) (select (λ p. text_eq p.sale_id sale_id) t.purchases)
