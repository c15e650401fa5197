-- ===== src/LoadTest/DrainQueue/Ends.antt =====
-- Waiting for the queue ends, and what its result says.
use sd_flash_sale.Prelude.{
  ℕ, zero, suc, ◌+◌, ◌-◌, ◌*◌, ◌≤◌, ◌<◌, ◌≡◌, refl, true, false, Option, some, ltb, ◌==◌, if-cases,
  arith,
}
use sd_flash_sale.LoadTest.Suite.{DrainQueueResult}
use sd_flash_sale.LoadTest.DrainQueue.{
  poll_interval_ms, settle_ms, Outside, finished, poll, wait_for_queue_drain,
}

module _ (o : Outside) where
  -- Drained: the queue was empty at two times that are at least settle_ms apart. Timed out: the time is
  -- over, and the depth is the one at the end.
  abbrev pub IsTold : ℕ → ℕ → DrainQueueResult → Type 0
  IsTold start timeout_ms result = elim result.timed_out [
    | true ↦
        (t : ℕ) × (start + timeout_ms ≤ t)
        × (start + result.drained_ms ≡ t)
        × (o.depth t ≡ result.final_depth)
    | false ↦
        (t : ℕ) × (u : ℕ) × (t + settle_ms ≤ u)
        × (o.depth t ≡ 0)
        × (o.depth u ≡ 0)
        × (start + result.drained_ms ≡ u)
        × (result.final_depth ≡ 0)
  ]

  abbrev Ends : ℕ → ℕ → Option DrainQueueResult → Type 0
  Ends start timeout_ms m =
      (result : DrainQueueResult) × (m ≡ some result) × IsTold start timeout_ms result

  -- One round, if the next one ends
  round-Ends :
      (fuel start timeout_ms t : ℕ)
      → start ≤ t
      → ((u : ℕ)
          → t + poll_interval_ms ≤ u
          → t < start + timeout_ms
          → Ends start timeout_ms (poll o fuel start timeout_ms u))
      → Ends start timeout_ms (poll o (suc fuel) start timeout_ms t)
  unfolding poll
  round-Ends fuel start timeout_ms t from next =
      let asked = o.replies_at t in
      let woken = o.fires_at asked settle_ms in
      let settled = o.replies_at woken in
      let asked_law = o.replies_at_law t in
      let woken_law = o.fires_at_law asked settle_ms in
      let settled_law = o.replies_at_law woken in
      if-cases (Ends start timeout_ms) (ltb (t - start) timeout_ms)
        (λ in_time.
          if-cases (Ends start timeout_ms) (o.depth asked == 0)
            (λ empty.
              if-cases (Ends start timeout_ms) (o.depth settled == 0)
                (λ still_empty. (
                  finished o start settled,
                  refl,
                  (asked, settled, omega arith, ground arith, ground arith, omega arith, refl),
                ))
                (λ refilled.
                  next (o.fires_at settled poll_interval_ms)
                    (omega (arith, o.fires_at_law settled poll_interval_ms)) (ground arith)))
            (λ full.
              next (o.fires_at asked poll_interval_ms)
                (omega (arith, o.fires_at_law asked poll_interval_ms)) (ground arith)))
        (λ late. (_, refl, (asked, ground arith, omega arith, refl)))

  poll-Ends :
      (fuel start timeout_ms t : ℕ)
      → start ≤ t
      → start + timeout_ms ≤ t + fuel * poll_interval_ms
      → Ends start timeout_ms (poll o (suc fuel) start timeout_ms t)
  poll-Ends zero start timeout_ms t from enough =
      round-Ends zero start timeout_ms t from (λ u later in_time. absurd (omega arith))
  poll-Ends (suc fuel) start timeout_ms t from enough =
      round-Ends (suc fuel) start timeout_ms t from
        (λ u later in_time. poll-Ends fuel start timeout_ms u (omega arith) (omega arith))

  -- With more rounds of fuel than the timeout has poll intervals, the wait gives a result, which is true:
  -- either the queue was empty twice, the second time at least settle_ms after the first; or the
  -- timeout has passed, and the result holds the depth of the queue at its end.
  pub wait_for_queue_drain-ends :
      (fuel timeout_ms start : ℕ)
      → timeout_ms ≤ fuel * poll_interval_ms
      → (result : DrainQueueResult) × (wait_for_queue_drain o (suc fuel) timeout_ms start
          ≡ some result)
        × IsTold start timeout_ms result
  unfolding wait_for_queue_drain
  wait_for_queue_drain-ends fuel timeout_ms start enough =
      poll-Ends fuel start timeout_ms start (omega arith) (omega (arith, enough))
