-- ===== src/Web/ValidateEmail.antt =====
-- apps/web/src/lib/validateEmail: the pattern that an address must match before it is used.
pub mod Shape
use sd_flash_sale.Prelude.{
  ℕ, Bool, true, false, not, ◌&&◌, ◌||◌, List, [], ◌∷◌, Text, leb, ◌==◌, if◌then◌else◌,
}

-- White space, to `\s` and to `trim`
abbrev pub is_space : ℕ → Bool
is_space c =
    (leb 9 c && leb c 13)
    || c == 32
    || c == 160
    || c == 5760
    || (leb 8192 c && leb c 8202)
    || c == 8232
    || c == 8233
    || c == 8239
    || c == 8287
    || c == 12288
    || c == 65279

abbrev pub trim_start : Text → Text
trim_start [] = []
trim_start (c ∷ s) = let rest = trim_start s in if is_space c then rest else c ∷ s

abbrev pub unless_blank : ℕ → Text → Text
unless_blank c [] = if is_space c then [] else c ∷ []
unless_blank c (d ∷ rest) = c ∷ d ∷ rest

abbrev pub trim_end : Text → Text
trim_end [] = []
trim_end (c ∷ s) = unless_blank c (trim_end s)

-- `[^\s@]`
abbrev pub is_plain : ℕ → Bool
is_plain c = not (is_space c) && not (c == b'@')

-- A regular expression as what it does with the rest of the text: `[…]+`, a character, and `$`
abbrev pub one_or_more : (ℕ → Bool) → (Text → Bool) → Text → Bool
one_or_more p next [] = false
one_or_more p next (c ∷ s) = p c && (one_or_more p next s || next s)

abbrev pub char : ℕ → (Text → Bool) → Text → Bool
char c next [] = false
char c next (d ∷ s) = c == d && next s

abbrev pub at_end : Text → Bool
at_end [] = true
at_end (c ∷ s) = false

-- `EMAIL_PATTERN`
unfoldable pub email_pattern : Text → Bool
email_pattern =
    one_or_more is_plain
      (char b'@' (one_or_more is_plain (char b'.' (one_or_more is_plain at_end))))

unfoldable pub is_valid_email : Text → Bool
unfolding email_pattern
is_valid_email email = email_pattern (trim_end (trim_start email))
