-- ===== src/Web/Duration/ReadBack.antt =====
-- What formatDuration prints can be read back.
use sd_flash_sale.Prelude.{
  ℕ, ◌+◌, ◌*◌, ◌/◌, ◌%◌, ◌≡◌, refl, [], ◌∷◌, ◌++◌, Text, All, arith, to_string, value_from, before,
  after, IsDigit, to_string-IsDigit, to_string-value, split-at,
}
use sd_flash_sale.Web.Duration.{
  ℤ, ms_per_second, ms_per_minute, ms_per_hour, clamp, pad_start, pad, format_duration,
}

-- The seconds that H:MM:SS spells
unfoldable pub read_duration : Text → ℕ
read_duration s =
    let rest = after b':' s in
    value_from 0 (before b':' s) * 3600
    + value_from 0 (before b':' rest) * 60
    + value_from 0 (after b':' rest)

pad_start-value : (s : Text) → value_from 0 (pad_start s) ≡ value_from 0 s
pad_start-value [] = refl
pad_start-value (c ∷ []) = omega arith
pad_start-value (c ∷ d ∷ s) = refl

pad_start-IsDigit : (s : Text) → All IsDigit s → All IsDigit (pad_start s)
pad_start-IsDigit [] h = ((omega arith, omega arith), ((omega arith, omega arith), tt))
pad_start-IsDigit (c ∷ []) h = ((omega arith, omega arith), h)
pad_start-IsDigit (c ∷ d ∷ s) h = h

-- What is printed of a time in milliseconds, read as hours, minutes and seconds, is that time in whole
-- seconds, rounded down; of a time below zero it is zero.
pub read_duration-format_duration : (ms : ℤ) → read_duration (format_duration ms) ≡ clamp ms / 1000
unfolding read_duration format_duration pad
read_duration-format_duration ms =
    let n = clamp ms in
    let hours = n / ms_per_hour in
    let minutes = (n % ms_per_hour) / ms_per_minute in
    let seconds = (n % ms_per_minute) / ms_per_second in
    let (h, rest) =
      split-at b':' (to_string hours) (pad minutes ++ b':' ∷ pad seconds) refl
        (to_string-IsDigit hours) in
    let (m, s) =
      split-at b':' (pad minutes) (pad seconds) refl
        (pad_start-IsDigit (to_string minutes) (to_string-IsDigit minutes)) in
    rw
      (
        h,
        rest,
        m,
        s,
        to_string-value hours,
        pad_start-value (to_string minutes),
        to_string-value minutes,
        pad_start-value (to_string seconds),
        to_string-value seconds,
      )
      (omega arith)
