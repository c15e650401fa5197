-- ===== src/Queue/Drain/Accounted.antt =====
-- Where each delivery of packages/queue/src/drain.ts is, and when one waits.
use sd_flash_sale.Prelude.{
  ℕ, ◌+◌, ◌≤◌, ◌≡◌, refl, ◌∙◌, Bool, true, false, not, ◌&&◌, ◌||◌, List, [], ◌∷◌, ◌++◌, count,
  select, any, ltb, leb, ◌==◌, if◌then◌else◌, if-cases, arith, Option, is_some, length,
  count-append, Bool-cases, inl, inr,
}
use sd_flash_sale.Queue.Messages.{PurchaseWriteMessage}
use sd_flash_sale.Queue.Drain.Settled.{run-IsSound, drain_purchase_writes-IsSound}
use sd_flash_sale.Queue.Drain.{
  Delivery, Channel, Drain, Ended, wrote, exhausted, unsettled, Event, message, timer, start,
  stopping, cancelled, ended, last_tag, settle, is_empty, schedule_flush, chain_flush, on_message,
  on_timer, start_flush, end_flush, stop, finish, step, run, drain_purchase_writes, ack_up_to, nack,
  nack_all,
}

-- How often a tag is acknowledged, dead-lettered or unsettled
abbrev pub times : ℕ → Channel → ℕ
times t ch =
    count (λ d. d.tag == t) ch.acked
    + count (λ d. d.tag == t) ch.dead
    + count (λ d. d.tag == t) ch.outstanding

-- Whether the broker has given the tag out
abbrev pub is_given : ℕ → Channel → Bool
is_given t ch = leb 1 t && ltb t ch.next_tag

abbrev pub IsAccounted : Channel → Type 0
IsAccounted ch = (1 ≤ ch.next_tag) × ((t : ℕ) → times t ch ≡ (if is_given t ch then 1 else 0))

count-ack :
    (p : Delivery → Bool) (tag : ℕ) (ds : List Delivery)
    → count p (select (λ d. leb d.tag tag) ds) + count p (select (λ d. ltb tag d.tag) ds)
      ≡ count p ds
count-ack p tag [] = refl
count-ack p tag (d ∷ ds) = ground (arith, count-ack p tag ds)

count-nack :
    (p : Delivery → Bool) (tag : ℕ) (ds : List Delivery)
    → count p (select (λ d. d.tag == tag) ds) + count p (select (λ d. not (d.tag == tag)) ds)
      ≡ count p ds
count-nack p tag [] = refl
count-nack p tag (d ∷ ds) = ground (arith, count-nack p tag ds)

times-nack_all : (t : ℕ) (ds : List Delivery) (ch : Channel) → times t (nack_all ds ch) ≡ times t ch
unfolding nack_all nack
times-nack_all t [] ch = refl
times-nack_all t (d ∷ ds) ch = omega (
  arith,
  times-nack_all t ds (nack d ch),
  count-nack (λ e. e.tag == t) d.tag ch.outstanding,
  count-append (λ e. e.tag == t) ch.dead (select (λ e. e.tag == d.tag) ch.outstanding),
)

next_tag-nack_all : (ds : List Delivery) (ch : Channel) → (nack_all ds ch).next_tag ≡ ch.next_tag
unfolding nack_all nack
next_tag-nack_all [] ch = refl
next_tag-nack_all (d ∷ ds) ch = next_tag-nack_all ds (nack d ch)

settle-IsAccounted :
    (how : Ended) (batch : List Delivery) (ch : Channel)
    → IsAccounted ch
    → IsAccounted (settle how batch ch)
unfolding settle ack_up_to
settle-IsAccounted wrote [] ch h = h
settle-IsAccounted exhausted [] ch h = h
settle-IsAccounted unsettled [] ch h = h
settle-IsAccounted unsettled (d ∷ ds) ch h = h
settle-IsAccounted wrote (d ∷ ds) ch h = (
  h.0,
  λ t. omega (
    arith,
    count-ack (λ e. e.tag == t) (last_tag d ds) ch.outstanding,
    count-append (λ e. e.tag == t) ch.acked
        (select (λ e. leb e.tag (last_tag d ds)) ch.outstanding),
    h.1 t,
  ),
)
settle-IsAccounted exhausted (d ∷ ds) ch h = (
  rw (next_tag-nack_all (d ∷ ds) ch) h.0,
  λ t. rw (next_tag-nack_all (d ∷ ds) ch) (times-nack_all t (d ∷ ds) ch ∙ h.1 t),
)

deliver-IsAccounted :
    (content : Option PurchaseWriteMessage) (ch : Channel)
    → IsAccounted ch
    → IsAccounted record ch {
      next_tag = ch.next_tag + 1;
      outstanding = ch.outstanding ++ record { tag = ch.next_tag; content = content } ∷ [];
    }
deliver-IsAccounted content ch h = (
  omega arith,
  λ t. ground (
    arith,
    h.0,
    h.1 t,
    count-append (λ d. d.tag == t) ch.outstanding
        (record { tag = ch.next_tag; content = content } ∷ []),
  ),
)

on_message-IsAccounted :
    (content : Option PurchaseWriteMessage) (s : Drain)
    → IsAccounted s.channel
    → IsAccounted (on_message content s).channel
unfolding on_message schedule_flush chain_flush
on_message-IsAccounted content s h =
    let more = deliver-IsAccounted content s.channel h in
    if-cases (λ (u : Drain). IsAccounted u.channel) s.stopped (λ _. more)
      (λ _.
        if-cases (λ (u : Drain). IsAccounted u.channel)
          (leb s.batch_size
            (length (s.pending ++ record { tag = s.channel.next_tag; content = content } ∷ [])))
          (λ _. more) (λ _. more))

start_flush-IsAccounted : (s : Drain) → IsAccounted s.channel → IsAccounted (start_flush s).channel
unfolding start_flush
start_flush-IsAccounted s h =
    if-cases (λ (u : Drain). IsAccounted u.channel)
      (s.rejected || not (is_empty s.in_flight) || s.chained == 0) (λ _. h)
      (λ _.
        if-cases (λ (u : Drain). IsAccounted u.channel)
          (any (λ d. not (is_some d.content)) s.pending) (λ _. h) (λ _. h))

step-IsAccounted : (e : Event) (s : Drain) → IsAccounted s.channel → IsAccounted (step e s).channel
unfolding step stop finish chain_flush on_timer end_flush
step-IsAccounted (message content) s h = on_message-IsAccounted content s h
step-IsAccounted timer s h =
    if-cases (λ (u : Drain). IsAccounted u.channel) s.flush_timer (λ _. h) (λ _. h)
step-IsAccounted start s h = start_flush-IsAccounted s h
step-IsAccounted (ended how) s h = settle-IsAccounted how s.in_flight s.channel h
step-IsAccounted stopping s h = h
step-IsAccounted cancelled s h =
    if-cases (λ (u : Drain). IsAccounted u.channel) s.stopped (λ _. h) (λ _. h)

run-IsAccounted :
    (es : List Event) (s : Drain) → IsAccounted s.channel → IsAccounted (run es s).channel
unfolding run
run-IsAccounted [] s h = h
run-IsAccounted (e ∷ es) s h = run-IsAccounted es (step e s) (step-IsAccounted e s h)

drain_purchase_writes-IsAccounted :
    (batch_size : ℕ) → IsAccounted (drain_purchase_writes batch_size).channel
unfolding drain_purchase_writes
drain_purchase_writes-IsAccounted batch_size = (omega arith, λ t. ground arith)

-- After any events, as long as no flush was rejected: the deliveries that are unsettled are, in order, the
-- batch that waits for the database, the pending ones, and those that came after `stop`, of which there are
-- none without a `stop`; and every delivery that the broker has made, and no other, is exactly once among
-- these, the acknowledged and the dead-lettered ones: none is lost, forgotten or settled twice.
pub run-IsAccounted_once :
    (batch_size : ℕ) (es : List Event) (t : ℕ)
    → (run es (drain_purchase_writes batch_size)).rejected ≡ false
    → let s = run es (drain_purchase_writes batch_size) in
      (ignored : List Delivery) × (s.channel.outstanding ≡ s.in_flight ++ (s.pending ++ ignored))
      × ((s.stopped || is_empty ignored) ≡ true)
      × (times t s.channel ≡ (if is_given t s.channel then 1 else 0))
run-IsAccounted_once batch_size es t accepted =
    let s = run es (drain_purchase_writes batch_size) in
    let (lost, ignored, split, kept, idle, heard, below) =
      run-IsSound es (drain_purchase_writes batch_size)
        (drain_purchase_writes-IsSound batch_size) in
    (
      ignored,
      rw (kept accepted) at split,
      elim (Bool-cases s.stopped) [
        | inl stopped ↦ rw stopped refl
        | inr going ↦ rw (going, heard going) refl
      ],
      (run-IsAccounted es (drain_purchase_writes batch_size)
            (drain_purchase_writes-IsAccounted batch_size)).1
          t,
    )

-- A pending delivery waits for a timer or for a flush of the chain, unless the chain was rejected.
abbrev pub IsAwaited : Drain → Type 0
IsAwaited s =
    s.rejected ≡ false → is_empty s.pending ≡ false → (s.flush_timer || ltb 0 s.chained) ≡ true

step-IsAwaited : (e : Event) (s : Drain) → IsAwaited s → IsAwaited (step e s)
unfolding step stop finish on_message on_timer start_flush end_flush chain_flush schedule_flush
step-IsAwaited (message content) s h =
    if-cases IsAwaited s.stopped (λ _. h)
      (λ _.
        if-cases IsAwaited
          (leb s.batch_size
            (length (s.pending ++ record { tag = s.channel.next_tag; content = content } ∷ [])))
          (λ _ ok some. ground arith) (λ _ ok some. refl))
step-IsAwaited timer s h = if-cases IsAwaited s.flush_timer (λ _ ok some. ground arith) (λ _. h)
step-IsAwaited start s h =
    if-cases IsAwaited (s.rejected || not (is_empty s.in_flight) || s.chained == 0) (λ _. h)
      (λ _.
        if-cases IsAwaited (any (λ d. not (is_some d.content)) s.pending)
          (λ _ ok. ground (arith, ok)) (λ _ ok some. ground (arith, some)))
step-IsAwaited (ended how) s h = λ ok. h (ground (arith, ok))
step-IsAwaited stopping s h = h
step-IsAwaited cancelled s h = if-cases IsAwaited s.stopped (λ _ ok some. ground arith) (λ _. h)

run-IsAwaited : (es : List Event) (s : Drain) → IsAwaited s → IsAwaited (run es s)
unfolding run
run-IsAwaited [] s h = h
run-IsAwaited (e ∷ es) s h = run-IsAwaited es (step e s) (step-IsAwaited e s h)

-- After any events, if a delivery is pending and no flush was rejected, a flush of it is due: the timer
-- is set or the chain has a flush to run, `stop` included.
pub run-flushes_pending :
    (batch_size : ℕ) (es : List Event)
    → let s = run es (drain_purchase_writes batch_size) in
      (s.rejected || is_empty s.pending || s.flush_timer || ltb 0 s.chained) ≡ true
unfolding drain_purchase_writes
run-flushes_pending batch_size es =
    let s = run es (drain_purchase_writes batch_size) in
    ground
      (arith, run-IsAwaited es (drain_purchase_writes batch_size) (λ ok some. ground (arith, some)))
