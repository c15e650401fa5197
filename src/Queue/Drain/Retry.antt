-- ===== src/Queue/Drain/Retry.antt =====
-- The attempts of `flush` in packages/queue/src/drain.ts.
pub mod Laws
use sd_flash_sale.Prelude.{
  ℕ, zero, suc, ◌+◌, ◌*◌, ◌≤◌, ◌<◌, ◌≡◌, refl, Option, none, some, List, arith, ltb, if◌then◌else◌,
  inl, inr, ◌⊎◌, Bool, true, false,
}
use sd_flash_sale.Prelude.Result.{Result, ok, throws, Result-cases}
use sd_flash_sale.Database.Server.{Thrown}
use sd_flash_sale.Queue.Messages.{PurchaseWriteMessage}

-- `writeBatch`, and `channel.ack` behind it: an acknowledgement that throws counts as a failed attempt.
pub record Writer (W : Type 0) : Type 0 where
  pub write_batch : List PurchaseWriteMessage → W → Result Thrown (Unit {0}) × W
  pub ack : W → Result Thrown (Unit {0})

-- How the loop ends: what it threw last, if it gave up, after how many calls and how long a sleep.
pub record Tried (W : Type 0) : Type 0 where
  pub wrote : Bool
  pub last_error : Option Thrown
  pub calls : ℕ
  pub slept_ms : ℕ
  pub world : W

module _ {W : Type 0} (writer : Writer W) (max_attempts retry_backoff_ms : ℕ) where
  open writer use {write_batch, ack}

  -- The body of the `try`
  abbrev pub attempt_once : List PurchaseWriteMessage → W → Result Thrown (Unit {0}) × W
  attempt_once entries w =
      let (r, w') = write_batch entries w in (elim r [ ok done ↦ ack w' | throws e ↦ throws e ], w')

  abbrev pub pause : ℕ → ℕ
  pause attempt = if ltb attempt max_attempts then retry_backoff_ms * attempt else 0

  abbrev pub after_pause : ℕ → Tried W → Tried W
  after_pause ms t = record t { calls = suc (t.calls); slept_ms = ms + t.slept_ms }

  abbrev pub unless_done :
      W → Result Thrown (Unit {0}) → (Option Thrown → Tried W) → Option Thrown → ℕ → Tried W
  unless_done w (ok done) rest last attempt = record {
    wrote = true;
    last_error = last;
    calls = 1;
    slept_ms = 0;
    world = w;
  }
  unless_done w (throws e) rest last attempt = after_pause (pause attempt) (rest (some e))

  -- `for (let attempt = …; attempt <= maxAttempts; attempt++)`, with so many attempts left
  unfoldable pub attempt_from : ℕ → ℕ → List PurchaseWriteMessage → Option Thrown → W → Tried W
  attempt_from zero attempt entries last w = record {
    wrote = false;
    last_error = last;
    calls = 0;
    slept_ms = 0;
    world = w;
  }
  attempt_from (suc left) attempt entries last w =
      let (r, w') = attempt_once entries w in
      unless_done w' r (λ e. attempt_from left (attempt + 1) entries e w') last attempt

  unfoldable pub attempts : List PurchaseWriteMessage → W → Tried W
  unfolding attempt_from
  attempts entries w = attempt_from max_attempts 1 entries none w
