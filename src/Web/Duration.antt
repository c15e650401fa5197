-- ===== src/Web/Duration.antt =====
-- apps/web/src/lib/formatDuration and hooks/useCountdown: the time that is left, as H:MM:SS.
pub mod ReadBack
use sd_flash_sale.Prelude.{ℕ, ◌+◌, ◌-◌, ◌*◌, ◌/◌, ◌%◌, [], ◌∷◌, ◌++◌, Text, to_string}

-- A number of JavaScript, without a fraction
pub data ℤ : Type 0 where
  pos negsuc : ℕ → ℤ

abbrev pub ms_per_second : ℕ
ms_per_second = 1000

abbrev pub ms_per_minute : ℕ
ms_per_minute = 60 * ms_per_second

abbrev pub ms_per_hour : ℕ
ms_per_hour = 60 * ms_per_minute

-- `Math.max(0, ms)`
abbrev pub clamp : ℤ → ℕ
clamp (pos n) = n
clamp (negsuc n) = 0

-- `padStart(2, "0")`
abbrev pub pad_start : Text → Text
pad_start [] = b'0' ∷ b'0' ∷ []
pad_start (c ∷ []) = b'0' ∷ c ∷ []
pad_start (c ∷ d ∷ s) = c ∷ d ∷ s

unfoldable pub pad : ℕ → Text
pad value = pad_start (to_string value)

unfoldable pub format_duration : ℤ → Text
unfolding pad
format_duration ms =
    let clamped = clamp ms in
    let hours = clamped / ms_per_hour in
    let minutes = (clamped % ms_per_hour) / ms_per_minute in
    let seconds = (clamped % ms_per_minute) / ms_per_second in
    to_string hours ++ b':' ∷ (pad minutes ++ b':' ∷ pad seconds)

-- `useCountdown`: how far the server's clock is ahead is kept as the two readings of the first render.
pub record Countdown : Type 0 where
  pub server_time : ℕ
  pub mounted_at : ℕ
  pub remaining_ms : ℕ

-- `Math.max(0, target - (now + (server_time - mounted_at)))`
unfoldable pub remaining_ms_until : ℕ → ℕ → ℕ → ℕ → ℕ
remaining_ms_until target server_time mounted_at now = (target + mounted_at) - (now + server_time)

unfoldable pub use_countdown : ℕ → ℕ → ℕ → ℕ → Countdown
unfolding remaining_ms_until
use_countdown target server_time mounted_at now = record {
  server_time = server_time;
  mounted_at = mounted_at;
  remaining_ms = remaining_ms_until target server_time mounted_at now;
}

unfoldable pub tick : ℕ → ℕ → Countdown → Countdown
unfolding remaining_ms_until
tick target now c = record c {
  remaining_ms = remaining_ms_until target c.server_time c.mounted_at now;
}
