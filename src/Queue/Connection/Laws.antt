-- ===== src/Queue/Connection/Laws.antt =====
-- That the connection of packages/queue/src/connection.ts comes back, how fast, and when it stays away.
use Prim.Native.Nat.pow
use sd_flash_sale.Prelude.{
  ℕ, zero, suc, ◌+◌, ◌-◌, ◌*◌, ◌^◌, ◌≤◌, ◌≡◌, refl, Bool, true, false, ◌||◌, List, [], ◌∷◌, none,
  ◌==◌, ltb, if◌then◌else◌, if-cases, is_some, arith, not,
}
use sd_flash_sale.Queue.Connection.{
  QueueConnection, reconnect_delay, push_timer, schedule_reconnect, connect_once, on_timer,
  connected, failed, is_current, on_down, close, Event, timer, connects, fails, closing, down, step,
  run, create_queue_connection,
}

pred-suc : (n : ℕ) → suc n - 1 ≡ n
pred-suc n = omega arith

two_pow-suc : (n : ℕ) → 2 ^ suc n ≡ 2 * 2 ^ n
two_pow-suc n = omega (arith, pow.suc 2 n)

two_pow-positive : (n : ℕ) → 1 ≤ 2 ^ n
two_pow-positive zero = omega arith
two_pow-positive (suc n) = omega (arith, two_pow-suc n, two_pow-positive n)

two_pow-large : (n : ℕ) → 32 ≤ 2 ^ suc (suc (suc (suc (suc n))))
two_pow-large n = omega (
  arith,
  two_pow-positive n,
  two_pow-suc n,
  two_pow-suc (suc n),
  two_pow-suc (suc (suc n)),
  two_pow-suc (suc (suc (suc n))),
  two_pow-suc (suc (suc (suc (suc n)))),
)

-- The delays double from half a second and are ten seconds from the sixth attempt on.
pub reconnect_delay_lem :
    (n : ℕ) → reconnect_delay (suc n) ≡ (if ltb n 5 then 500 * 2 ^ n else 10000)
unfolding reconnect_delay
reconnect_delay_lem zero = refl
reconnect_delay_lem (suc zero) = refl
reconnect_delay_lem (suc (suc zero)) = refl
reconnect_delay_lem (suc (suc (suc zero))) = refl
reconnect_delay_lem (suc (suc (suc (suc zero)))) = refl
reconnect_delay_lem (suc (suc (suc (suc (suc n))))) =
    rw (pred-suc (suc (suc (suc (suc (suc n)))))) (ground (arith, two_pow-large n))

abbrev pub is_empty : List ℕ → Bool
is_empty [] = true
is_empty (t ∷ ts) = false

push_timer-not_empty : (d : ℕ) (ts : List ℕ) → is_empty (push_timer d ts) ≡ false
push_timer-not_empty d [] = refl
push_timer-not_empty d (t ∷ ts) = refl

abbrev pub IsAlive : QueueConnection → Type 0
IsAlive s =
    (s.channel ≡ s.connection)
    × (s.closed ≡ false
        → (is_some s.channel || not (is_empty s.timers) || not (s.connecting == 0)) ≡ true)

-- All that is asked of a state before a reconnect is scheduled
schedule_reconnect-IsAlive :
    (s : QueueConnection) → s.channel ≡ s.connection → IsAlive (schedule_reconnect s)
unfolding schedule_reconnect
schedule_reconnect-IsAlive s h =
    if-cases IsAlive s.closed (λ t. (h, λ f. absurd (ground (arith, rw t at f))))
      (λ f. (
        h,
        λ _. rw (push_timer-not_empty (reconnect_delay (s.attempt + 1)) s.timers) (ground arith),
      ))

on_timer-IsAlive : (ts : List ℕ) (s : QueueConnection) → IsAlive s → IsAlive (on_timer ts s)
unfolding on_timer connect_once
on_timer-IsAlive [] s h = h
on_timer-IsAlive (t ∷ ts) s h =
    if-cases IsAlive s.closed (λ yes. (h.0, λ no. absurd (ground (arith, rw yes at no))))
      (λ no. (h.0, λ _. ground arith))

step-IsAlive : (e : Event) (s : QueueConnection) → IsAlive s → IsAlive (step e s)
unfolding step connected failed on_down close
step-IsAlive timer s h = on_timer-IsAlive s.timers s h
step-IsAlive connects s h = if-cases IsAlive (s.connecting == 0) (λ _. h) (λ _. (refl, λ _. refl))
step-IsAlive fails s h =
    if-cases IsAlive (s.connecting == 0) (λ _. h) (λ _. schedule_reconnect-IsAlive _ h.0)
step-IsAlive closing s h = (refl, λ no. ground arith)
step-IsAlive (down id) s h = schedule_reconnect-IsAlive _ (
    if-cases (λ (x : QueueConnection). x.channel ≡ x.connection) (is_current id s.connection)
      (λ _. refl) (λ _. h.0))

run-IsAlive : (es : List Event) (s : QueueConnection) → IsAlive s → IsAlive (run es s)
unfolding run
run-IsAlive [] s h = h
run-IsAlive (e ∷ es) s h = run-IsAlive es (step e s) (step-IsAlive e s h)

-- Whatever happens, the channel is null exactly with the connection, and until `close` is called there
-- is a channel, or a reconnect is scheduled, or one is under way.
pub run-stays_alive :
    (es : List Event)
    → let s = run es create_queue_connection in
      (s.channel ≡ s.connection)
      × ((s.closed || is_some s.channel || not (is_empty s.timers) || not (s.connecting == 0))
          ≡ true)
unfolding create_queue_connection connect_once
run-stays_alive es =
    let (same, alive) = run-IsAlive es create_queue_connection (refl, λ _. refl) in
    (same, ground (arith, alive))

-- Closed, with no channel and no `connectOnce` under way
abbrev pub IsDown : QueueConnection → Type 0
IsDown s = (s.closed ≡ true) × (s.connecting ≡ 0) × (s.channel ≡ none)

on_timer-IsDown : (ts : List ℕ) (s : QueueConnection) → IsDown s → IsDown (on_timer ts s)
unfolding on_timer connect_once
on_timer-IsDown [] s h = h
on_timer-IsDown (t ∷ ts) s h =
    if-cases IsDown s.closed (λ _. h) (λ no. absurd (ground (arith, h.0, no)))

schedule_reconnect-IsDown : (s : QueueConnection) → IsDown s → IsDown (schedule_reconnect s)
unfolding schedule_reconnect
schedule_reconnect-IsDown s h =
    if-cases IsDown s.closed (λ _. h) (λ no. absurd (ground (arith, h.0, no)))

step-IsDown : (e : Event) (s : QueueConnection) → IsDown s → IsDown (step e s)
unfolding step close connected failed on_down schedule_reconnect
step-IsDown timer s h = on_timer-IsDown s.timers s h
step-IsDown connects s h =
    if-cases IsDown (s.connecting == 0) (λ _. h) (λ no. absurd (ground (arith, no, h.1)))
step-IsDown fails s h =
    if-cases IsDown (s.connecting == 0) (λ _. h) (λ no. absurd (ground (arith, no, h.1)))
step-IsDown closing s h = (refl, h.1, refl)
step-IsDown (down id) s h =
    schedule_reconnect-IsDown _
      (if-cases IsDown (is_current id s.connection) (λ _. (h.0, h.1, refl)) (λ _. h))

run-IsDown : (es : List Event) (s : QueueConnection) → IsDown s → IsDown (run es s)
unfolding run
run-IsDown [] s h = h
run-IsDown (e ∷ es) s h = run-IsDown es (step e s) (step-IsDown e s h)

-- After `close`, with no `connectOnce` under way, there is never a channel again, and nothing is done
-- to get one, whichever callbacks still run.
pub close-IsDown :
    (before after : List Event)
    → (run before create_queue_connection).connecting ≡ 0
    → IsDown (run after (close (run before create_queue_connection)))
unfolding close
close-IsDown before after h =
    run-IsDown after (close (run before create_queue_connection)) (refl, h, refl)
