-- ===== src/LoadTest/DrainQueue.antt =====
-- packages/load-test/scripts/drain-queue.ts: waiting until the queue is empty. The clock and the queue are
-- arguments: when a reply comes, when a timer fires, and how many messages are queued at a time.
pub mod Ends
use sd_flash_sale.Prelude.{
  ℕ, zero, suc, ◌+◌, ◌-◌, ◌≤◌, true, false, Option, none, some, ltb, ◌==◌, if◌then◌else◌,
}
use sd_flash_sale.LoadTest.Suite.{DrainQueueResult}

abbrev pub poll_interval_ms : ℕ
poll_interval_ms = 250

abbrev pub settle_ms : ℕ
settle_ms = 1500

abbrev pub default_timeout_ms : ℕ
default_timeout_ms = 60000

pub record Outside : Type 0 where
  -- When a reply to a question of this time comes, and when a timer of that many milliseconds fires
  pub replies_at : ℕ → ℕ
  pub fires_at : ℕ → ℕ → ℕ
  pub depth : ℕ → ℕ
  pub replies_at_law : (t : ℕ) → t ≤ replies_at t
  pub fires_at_law : (t ms : ℕ) → t + ms ≤ fires_at t ms

module _ (o : Outside) where
  abbrev pub finished : ℕ → ℕ → DrainQueueResult
  finished start t = record { drained_ms = t - start; timed_out = false; final_depth = 0 }

  -- The loop from the time `t` on; `none` when the fuel is used up
  unfoldable pub poll : ℕ → ℕ → ℕ → ℕ → Option DrainQueueResult
  poll zero start timeout_ms t = none
  poll (suc fuel) start timeout_ms t =
      let asked = o.replies_at t in
      let settled = o.replies_at (o.fires_at asked settle_ms) in
      let again = poll fuel start timeout_ms (o.fires_at settled poll_interval_ms) in
      let later = poll fuel start timeout_ms (o.fires_at asked poll_interval_ms) in
      if ltb (t - start) timeout_ms
      then (if o.depth asked == 0
          then (if o.depth settled == 0 then some (finished start settled) else again)
          else later)
      else some
          (record { drained_ms = asked - start; timed_out = true; final_depth = o.depth asked })

  unfoldable pub wait_for_queue_drain : ℕ → ℕ → ℕ → Option DrainQueueResult
  unfolding poll
  wait_for_queue_drain fuel timeout_ms start = poll fuel start timeout_ms start
