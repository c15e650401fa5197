-- ===== src/Api/PgError.antt =====
-- apps/api/src/database/pg-error.ts: the SQLSTATE of whatever was thrown.
use sd_flash_sale.Prelude.{ℕ, zero, suc, ◌≡◌, refl, Bool, false, Option, none, some, Text, text_eq}
use sd_flash_sale.Database.Server.{Thrown, primitive, object, caused}

unfoldable pub get_error_code : Thrown → Option Text
get_error_code primitive = none
get_error_code (object code) = code
get_error_code (caused (some code) cause) = some code
get_error_code (caused none cause) = get_error_code cause

unfoldable pub is_pg_error_with_code : Thrown → Text → Bool
unfolding get_error_code
is_pg_error_with_code error code = elim (get_error_code error) [
  | none ↦ false
  | some found ↦ text_eq found code
]

-- An error wrapped so many times by errors without a code of their own.
abbrev pub wrapped : ℕ → Thrown → Thrown
wrapped zero e = e
wrapped (suc n) e = caused none (wrapped n e)

-- However deep the database's error is wrapped, its code is what the tests see.
pub is_pg_error_with_code-wrapped :
    (n : ℕ) (e : Thrown) (code : Text)
    → is_pg_error_with_code (wrapped n e) code ≡ is_pg_error_with_code e code
unfolding is_pg_error_with_code
is_pg_error_with_code-wrapped zero e code = refl
is_pg_error_with_code-wrapped (suc n) e code = is_pg_error_with_code-wrapped n e code
