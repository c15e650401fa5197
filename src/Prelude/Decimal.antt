-- ===== src/Prelude/Decimal.antt =====
-- Numbers as decimal text: JavaScript's `toString` of a number below 10 ^ 21 without a fraction, and how
-- such a text is read back, alone or in front of a separator.
use Prim.Native.Nat.{ℕ, zero, suc, ◌+◌, ◌-◌, ◌*◌, ◌/◌, ◌%◌, ◌≤◌, ◌<◌}
use mathlib.Core.Path.{◌≡◌, refl, ap}
use mathlib.Core.Logic.{inl, inr}
use mathlib.Core.Bool.{true, false, ◌||◌}
use mathlib.Core.List.{[], ◌∷◌, ◌++◌}
use native.Mathlib.Omega.{arith}
use sd_flash_sale.Prelude.Tests.{ltb, ◌==◌, if◌then◌else◌, Bool-cases}
use sd_flash_sale.Prelude.Lists.{All, All-append}
use sd_flash_sale.Prelude.Strings.{Text}

unfoldable pub digits : ℕ → ℕ → Text
digits zero n = []
digits (suc fuel) n =
    let before = digits fuel (n / 10) in (if ltb n 10 then [] else before) ++ (b'0' + n % 10) ∷ []

-- `toString` of a number below 10 ^ 21
unfoldable pub to_string : ℕ → Text
unfolding digits
to_string n = digits (suc n) n

-- The number that a text of digits spells
abbrev pub value_from : ℕ → Text → ℕ
value_from n [] = n
value_from n (c ∷ s) = value_from (n * 10 + (c - b'0')) s

-- The text before the first character `sep`, and the one behind it
abbrev pub before : ℕ → Text → Text
before sep [] = []
before sep (c ∷ s) = let rest = before sep s in if c == sep then [] else c ∷ rest

abbrev pub after : ℕ → Text → Text
after sep [] = []
after sep (c ∷ s) = let rest = after sep s in if c == sep then s else rest

value_from-snoc :
    (n d : ℕ) (s : Text) → value_from n (s ++ (b'0' + d) ∷ []) ≡ value_from n s * 10 + d
value_from-snoc n d [] = omega arith
value_from-snoc n d (c ∷ s) = value_from-snoc (n * 10 + (c - b'0')) d s

abbrev pub IsDigit : ℕ → Type 0
IsDigit c = (b'0' ≤ c) × (c ≤ b'9')

digits-IsDigit : (fuel n : ℕ) → All IsDigit (digits fuel n)
unfolding digits
digits-IsDigit zero n = tt
digits-IsDigit (suc fuel) n =
    All-append IsDigit (if ltb n 10 then [] else digits fuel (n / 10)) _
      (elim (Bool-cases (ltb n 10)) [
        | inl small ↦ rw small tt
        | inr large ↦ rw large (digits-IsDigit fuel (n / 10))
      ])
      ((omega arith, omega arith), tt)

digits-value : (fuel n : ℕ) → n < fuel → value_from 0 (digits fuel n) ≡ n
unfolding digits
digits-value zero n h = absurd (omega (arith, h))
digits-value (suc fuel) n h = elim (Bool-cases (ltb n 10)) [
  | inl small ↦ rw small (ground arith)
  | inr large ↦
      rw (large, value_from-snoc 0 (n % 10) (digits fuel (n / 10)))
        (let less : n / 10 < fuel = ground arith in omega (arith, digits-value fuel (n / 10) less))
]

pub to_string-IsDigit : (n : ℕ) → All IsDigit (to_string n)
unfolding to_string
to_string-IsDigit n = digits-IsDigit (suc n) n

pub to_string-value : (n : ℕ) → value_from 0 (to_string n) ≡ n
unfolding to_string
to_string-value n = digits-value (suc n) n (omega arith)

-- A text of digits is split off at a separator below the digits or above them.
pub split-at :
    (sep : ℕ) (s rest : Text)
    → (ltb sep b'0' || ltb b'9' sep) ≡ true
    → All IsDigit s
    → (before sep (s ++ sep ∷ rest) ≡ s) × (after sep (s ++ sep ∷ rest) ≡ rest)
split-at sep [] rest out h =
    let same : (sep == sep) ≡ true = ground arith in (rw same refl, rw same refl)
split-at sep (c ∷ s) rest out (here, later) =
    let (same, behind) = split-at sep s rest out later in
    let other : (c == sep) ≡ false = ground (arith, here, out) in
    (rw other (ap (λ (t : Text). c ∷ t) same), rw other behind)
