-- ===== src/Redis/Keys.antt =====
-- packages/redis/src/keys.ts and normalize-email.ts: the names under which a sale is kept, and the
-- form in which a buyer is.
pub mod Apart
use sd_flash_sale.Prelude.{
  ℕ, suc, ◌+◌, ◌≡◌, refl, sym, ap, ◌∙◌, ◌↔◌, Bool, true, false, ◌&&◌, List, [], ◌∷◌, ◌++◌, Option,
  none, some, arith, Text, codes, text_eq, text_eq_iff, to_lower_case, Bool-ext, ◌==◌, length,
  length-append, Bool-cases, inl, inr,
}

abbrev pub namespace : Text
namespace = codes "flashsale"

unfoldable pub sale_stock : Text → Text
sale_stock id = namespace ++ (codes ":sale:" ++ (id ++ codes ":stock"))

unfoldable pub sale_meta : Text → Text
sale_meta id = namespace ++ (codes ":sale:" ++ (id ++ codes ":meta"))

unfoldable pub sale_buyers : Text → Text
sale_buyers id = namespace ++ (codes ":sale:" ++ (id ++ codes ":buyers"))

unfoldable pub namespace_pattern : Text
namespace_pattern = namespace ++ codes ":*"

unfoldable pub normalize_email : Text → Text
normalize_email = to_lower_case

-- The three keys of a sale.
pub data KeyKind : Type 0 where
  stock meta buyers : KeyKind

abbrev pub sale_key : KeyKind → Text → Text
sale_key stock = sale_stock
sale_key meta = sale_meta
sale_key buyers = sale_buyers
