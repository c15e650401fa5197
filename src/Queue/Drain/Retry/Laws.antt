-- ===== src/Queue/Drain/Retry/Laws.antt =====
-- What the attempts of a flush do (packages/queue/src/drain.ts), against a description that only
-- repeats the calls.
use native.Mathlib.Nat.{mul-add}
use sd_flash_sale.Prelude.{
  ℕ, zero, suc, ◌+◌, ◌-◌, ◌*◌, ◌≤◌, ◌≡◌, refl, Bool, true, false, not, ◌&&◌, ◌||◌, ◌==◌, Option,
  none, some, List, arith, ltb, Bool-cases, inl, inr,
}
use sd_flash_sale.Prelude.Result.{Result, ok, throws}
use sd_flash_sale.Database.Server.{Thrown}
use sd_flash_sale.Queue.Messages.{PurchaseWriteMessage}
use sd_flash_sale.Queue.Drain.Retry.{
  Writer, Tried, attempt_once, pause, unless_done, attempt_from, attempts,
}

module _ {W : Type 0} (writer : Writer W) (max_attempts retry_backoff_ms : ℕ) where
  abbrev pub once : List PurchaseWriteMessage → W → Result Thrown (Unit {0}) × W
  once = attempt_once writer max_attempts retry_backoff_ms

  abbrev pub is_throw : Result Thrown (Unit {0}) → Bool
  is_throw (ok done) = false
  is_throw (throws e) = true

  -- The world after so many calls, one after the other
  abbrev pub after : ℕ → List PurchaseWriteMessage → W → W
  after zero entries w = w
  after (suc n) entries w = after n entries (once entries w).1

  -- So many calls, one after the other, all throw.
  abbrev pub all_throw : ℕ → List PurchaseWriteMessage → W → Bool
  all_throw zero entries w = true
  all_throw (suc n) entries w =
      is_throw (once entries w).0 && all_throw n entries (once entries w).1

  -- The sleeps between so many attempts, from this one on, in units of the backoff
  abbrev pub waits : ℕ → ℕ → ℕ
  waits attempt zero = 0
  waits attempt (suc zero) = 0
  waits attempt (suc (suc n)) = attempt + waits (attempt + 1) (suc n)

  -- `t` is how the attempts end, with so many left from this one on
  abbrev pub IsTriedFrom : ℕ → ℕ → List PurchaseWriteMessage → W → Tried W → Type 0
  IsTriedFrom left attempt entries w t =
      (t.wrote ≡ not (all_throw left entries w))
      × (t.calls ≤ left)
      × (t.world ≡ after t.calls entries w)
      × (all_throw (t.calls - 1) entries w ≡ true)
      × (all_throw t.calls entries w ≡ not t.wrote)
      × ((t.wrote || t.calls == left) ≡ true)
      × (t.slept_ms ≡ retry_backoff_ms * waits attempt t.calls)

  pred-suc : (n : ℕ) → suc n - 1 ≡ n
  pred-suc n = omega arith

  all_throw-suc :
      (n : ℕ) (entries : List PurchaseWriteMessage) (w : W) {e : Thrown}
      → (once entries w).0 ≡ throws e
      → all_throw (n - 1) entries (once entries w).1 ≡ true
      → all_throw (suc n - 1) entries w ≡ true
  all_throw-suc zero entries w h rest = refl
  all_throw-suc (suc n) entries w h rest = rw (pred-suc (suc n)) (rw h (rw (pred-suc n) at rest))

  pause-waits :
      (left attempt calls slept : ℕ)
      → attempt + suc left ≡ suc max_attempts
      → calls ≤ left
      → (calls ≡ 0 → left ≡ 0)
      → slept ≡ retry_backoff_ms * waits (attempt + 1) calls
      → pause writer max_attempts retry_backoff_ms attempt + slept
        ≡ retry_backoff_ms * waits attempt (suc calls)
  pause-waits left attempt zero slept h le none_left e =
      elim (Bool-cases (ltb attempt max_attempts)) [
        | inl t ↦ ground (arith, none_left refl)
        | inr f ↦ rw f (omega arith)
      ]
  pause-waits left attempt (suc calls) slept h le none_left e =
      elim (Bool-cases (ltb attempt max_attempts)) [
        | inl t ↦
            rw t
              (omega (arith, e, mul-add retry_backoff_ms attempt (waits (attempt + 1) (suc calls))))
        | inr f ↦ ground arith
      ]

  -- One attempt before a run of attempts
  unless_done-IsTriedFrom :
      (left attempt : ℕ) (entries : List PurchaseWriteMessage) (last : Option Thrown) (w : W)
      (r : Result Thrown (Unit {0})) (rest : Option Thrown → Tried W)
      → attempt + suc left ≡ suc max_attempts
      → (once entries w).0 ≡ r
      → ((e : Option Thrown) → IsTriedFrom left (attempt + 1) entries (once entries w).1 (rest e))
      → IsTriedFrom
          (suc left)
          attempt
          entries
          w
          (unless_done writer max_attempts retry_backoff_ms (once entries w).1 r rest last attempt)
  unless_done-IsTriedFrom left attempt entries last w (ok done) rest h e ih =
      (rw e refl, omega arith, refl, refl, rw e refl, refl, omega arith)
  unless_done-IsTriedFrom left attempt entries last w (throws err) rest h e ih =
      let (wrote, calls, world, thrown, told, all, slept) = ih (some err) in
      let made_none : (rest (some err)).calls ≡ 0 → left ≡ 0 = λ none_made.
        elim (Bool-cases (rest (some err)).wrote) [
          | inl t ↦ ground (arith, rw none_made at told)
          | inr f ↦ ground (arith, rw f at all)
        ] in
      (
        rw e wrote,
        omega (arith, calls),
        world,
        all_throw-suc _ entries w e thrown,
        rw e told,
        ground (arith, all),
        pause-waits left attempt _ _ h calls (λ none_made. made_none none_made) slept,
      )

  attempt_from-IsTriedFrom :
      (left attempt : ℕ) (entries : List PurchaseWriteMessage) (last : Option Thrown) (w : W)
      → attempt + left ≡ suc max_attempts
      → IsTriedFrom left attempt entries w
          (attempt_from writer max_attempts retry_backoff_ms left attempt entries last w)
  unfolding attempt_from
  attempt_from-IsTriedFrom zero attempt entries last w h =
      (refl, omega arith, refl, refl, refl, refl, omega arith)
  attempt_from-IsTriedFrom (suc left) attempt entries last w h =
      unless_done-IsTriedFrom left attempt entries last w (once entries w).0
        (λ e.
          attempt_from writer max_attempts retry_backoff_ms left (attempt + 1) entries e
            (once entries w).1)
        h refl
        (λ e.
          attempt_from-IsTriedFrom left (attempt + 1) entries e (once entries w).1 (omega arith))

  -- The attempts stop at the first that succeeds, and give up after `maxAttempts` that throw: they
  -- wrote the batch unless `maxAttempts` calls in a row throw, every call but the last threw, there
  -- were at most `maxAttempts`, as many if they gave up, the world is that after so many calls, and
  -- they slept once between any two, the n-th time n times the backoff.
  pub attempts-first_success :
      (entries : List PurchaseWriteMessage) (w : W)
      → IsTriedFrom max_attempts 1 entries w
          (attempts writer max_attempts retry_backoff_ms entries w)
  unfolding attempts
  attempts-first_success entries w =
      attempt_from-IsTriedFrom max_attempts 1 entries none w (omega arith)
