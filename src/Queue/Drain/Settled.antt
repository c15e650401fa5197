-- ===== src/Queue/Drain/Settled.antt =====
-- What the consumer of packages/queue/src/drain.ts does with the deliveries of its channel.
pub mod Ordered
use mathlib.Core.List.{append-nil, append_assoc}
use sd_flash_sale.Prelude.{
  ℕ, zero, suc, ◌+◌, ◌-◌, ◌≤◌, ◌<◌, ◌≡◌, refl, sym, ap, ◌∙◌, Bool, true, false, not, ◌&&◌, ◌||◌,
  List, [], ◌∷◌, ◌++◌, count, select, any, ltb, leb, ◌==◌, if◌then◌else◌, if-cases, arith,
  Bool-cases, inl, inr, Option, none, some, is_some, length,
}
use sd_flash_sale.Queue.Messages.{PurchaseWriteMessage}
use sd_flash_sale.Queue.Drain.{
  Delivery, Channel, Drain, Ended, wrote, exhausted, unsettled, rejects, Event, message, timer,
  start, stopping, cancelled, ended, last_tag, settle, is_empty, schedule_flush, chain_flush,
  on_message, on_timer, start_flush, end_flush, stop, finish, step, run, drain_purchase_writes,
}
use sd_flash_sale.Queue.Drain.Settled.Ordered.{Above, IsSettled, settle-IsSettled}

-- The tags increase from above the one number and stay below the other.
abbrev IsBelow : ℕ → ℕ → List Delivery → Type 0
IsBelow lo hi [] = lo < hi
IsBelow lo hi (d ∷ ds) = (lo < d.tag) × IsBelow (d.tag) hi ds

-- The unsettled deliveries, oldest first: those that a rejected flush took and lost, the batch that waits
-- for the database, the pending ones, and those that came after `stop`.
abbrev pub IsSound : Drain → Type 0
IsSound s =
    (lost : List Delivery) × (ignored : List Delivery) × (s.channel.outstanding
      ≡ lost ++ (s.in_flight ++ (s.pending ++ ignored)))
    × (s.rejected ≡ false → lost ≡ [])
    × (s.rejected ≡ true → s.in_flight ≡ [])
    × (s.stopped ≡ false → ignored ≡ [])
    × IsBelow 0 (s.channel.next_tag) (s.channel.outstanding)

IsBelow-Above : (lo hi : ℕ) (ds : List Delivery) → IsBelow lo hi ds → Above lo ds
IsBelow-Above lo hi [] h = tt
IsBelow-Above lo hi (d ∷ ds) h = (h.0, IsBelow-Above (d.tag) hi ds h.1)

IsBelow-snoc :
    (lo : ℕ) (ds : List Delivery) (d : Delivery)
    → IsBelow lo d.tag ds
    → IsBelow lo (d.tag + 1) (ds ++ d ∷ [])
IsBelow-snoc lo [] d h = (h, omega arith)
IsBelow-snoc lo (e ∷ es) d h = (h.0, IsBelow-snoc (e.tag) es d h.1)

IsBelow-lower : (a b hi : ℕ) (ds : List Delivery) → a ≤ b → IsBelow b hi ds → IsBelow a hi ds
IsBelow-lower a b hi [] le h = omega (arith, h)
IsBelow-lower a b hi (d ∷ ds) le h = (omega (arith, h.0), h.1)

IsBelow-drop : (lo hi : ℕ) (xs ys : List Delivery) → IsBelow lo hi (xs ++ ys) → IsBelow lo hi ys
IsBelow-drop lo hi [] ys h = h
IsBelow-drop lo hi (x ∷ xs) ys h =
    IsBelow-lower lo x.tag hi ys (omega (arith, h.0)) (IsBelow-drop x.tag hi xs ys h.1)

pub drain_purchase_writes-IsSound : (n : ℕ) → IsSound (drain_purchase_writes n)
unfolding drain_purchase_writes
drain_purchase_writes-IsSound n = ([], [], refl, λ _. refl, λ _. refl, λ _. refl, omega arith)

clash {ℓ} : {A : Type ℓ} (b : Bool) → b ≡ true → b ≡ false → A
clash b t f = absurd (ground (arith, rw t at f))

append-deep :
    (a b c e x : List Delivery) {out : List Delivery}
    → out ≡ a ++ (b ++ (c ++ e))
    → out ++ x ≡ a ++ (b ++ (c ++ (e ++ x)))
append-deep a b c e x h =
    ap (λ o. o ++ x) h
    ∙ append_assoc a (b ++ (c ++ e)) x
    ∙ ap (λ o. a ++ o) (append_assoc b (c ++ e) x ∙ ap (λ o. b ++ o) (append_assoc c e x))

on_message-IsSound :
    (content : Option PurchaseWriteMessage) (s : Drain) → IsSound s → IsSound (on_message content s)
unfolding on_message schedule_flush chain_flush
on_message-IsSound content s (lost, ignored, split, kept, idle, heard, below) =
    let d : Delivery = record { tag = s.channel.next_tag; content = content } in
    let more = IsBelow-snoc 0 (s.channel.outstanding) d below in
    let now : s.stopped ≡ false
        → s.channel.outstanding ++ d ∷ [] ≡ lost ++ (s.in_flight ++ (s.pending ++ d ∷ [] ++ [])) =
      λ f.
        rw (append-nil (s.pending ++ d ∷ []))
          (append-deep lost s.in_flight s.pending [] (d ∷ []) (rw (heard f) at split)) in
    if-cases IsSound (s.stopped)
      (λ t. (
        lost,
        ignored ++ d ∷ [],
        append-deep lost s.in_flight s.pending ignored (d ∷ []) split,
        kept,
        idle,
        λ f. clash _ t f,
        more,
      ))
      (λ f.
        if-cases IsSound (leb s.batch_size (length (s.pending ++ d ∷ [])))
          (λ _. (lost, [], now f, kept, idle, λ _. refl, more))
          (λ _. (lost, [], now f, kept, idle, λ _. refl, more)))

on_timer-IsSound : (s : Drain) → IsSound s → IsSound (on_timer s)
unfolding on_timer chain_flush
on_timer-IsSound s h = if-cases IsSound (s.flush_timer) (λ _. h) (λ _. h)

is_ready :
    (rejected : Bool) (batch : List Delivery) (chained : ℕ)
    → (rejected || not (is_empty batch) || chained == 0) ≡ false
    → (rejected ≡ false) × (batch ≡ [])
is_ready true batch chained h = clash _ refl h
is_ready false [] chained h = (refl, refl)
is_ready false (d ∷ ds) chained h = clash _ refl h

start_flush-IsSound : (s : Drain) → IsSound s → IsSound (start_flush s)
unfolding start_flush
start_flush-IsSound s (lost, ignored, split, kept, idle, heard, below) =
    if-cases IsSound (s.rejected || not (is_empty s.in_flight) || s.chained == 0)
      (λ _. (lost, ignored, split, kept, idle, heard, below))
      (λ ready.
        let (accepted, none_waits) = is_ready s.rejected s.in_flight s.chained ready in
        let oldest : s.channel.outstanding ≡ s.pending ++ ignored =
          rw (kept accepted) at (rw none_waits at split) in
        if-cases IsSound (any (λ d. not (is_some d.content)) s.pending)
          (λ _. (
            s.pending,
            ignored,
            rw none_waits oldest,
            λ no. clash true refl no,
            λ _. none_waits,
            heard,
            below,
          ))
          (λ _. ([], ignored, oldest, λ _. refl, λ yes. clash _ yes accepted, heard, below)))

-- The batch that waits for the database is the oldest that is unsettled.
oldest-batch :
    (rejected : Bool) (lost batch rest : List Delivery) {out : List Delivery}
    → out ≡ lost ++ (batch ++ rest)
    → (rejected ≡ false → lost ≡ [])
    → (rejected ≡ true → batch ≡ [])
    → out ≡ batch ++ (lost ++ rest)
oldest-batch true lost batch rest h kept idle = rw (idle refl) (rw (idle refl) at h)
oldest-batch false lost batch rest h kept idle = rw (kept refl) (rw (kept refl) at h)

-- What a flush that has ended leaves unsettled of its batch
abbrev leftover : Ended → List Delivery → List Delivery
leftover wrote batch = []
leftover exhausted batch = []
leftover unsettled batch = batch

IsSettled-left :
    (how : Ended) (batch ys : List Delivery) (ch after : Channel)
    → IsSettled how batch ys ch after
    → (after.outstanding ≡ leftover how batch ++ ys) × (after.next_tag ≡ ch.next_tag)
IsSettled-left wrote batch ys ch after (left, acked, dead, next) = (left, next)
IsSettled-left exhausted batch ys ch after (left, acked, dead, next) = (left, next)
IsSettled-left unsettled batch ys ch after (left, acked, dead, next) = (left, next)

-- A chain that goes on has left nothing behind.
leftover-rejects :
    (how : Ended) (batch lost : List Delivery) (rejected : Bool)
    → (rejected ≡ false → lost ≡ [])
    → (rejected || rejects how batch) ≡ false
    → leftover how batch ++ lost ≡ []
leftover-rejects how batch lost true kept goes_on = absurd (cc goes_on)
leftover-rejects wrote batch lost false kept goes_on = kept refl
leftover-rejects exhausted batch lost false kept goes_on = kept refl
leftover-rejects unsettled [] lost false kept goes_on = kept refl
leftover-rejects unsettled (d ∷ ds) lost false kept goes_on = absurd (cc goes_on)

IsBelow-leftover :
    (how : Ended) (hi : ℕ) (batch ys : List Delivery)
    → IsBelow 0 hi (batch ++ ys)
    → IsBelow 0 hi (leftover how batch ++ ys)
IsBelow-leftover wrote hi batch ys h = IsBelow-drop 0 hi batch ys h
IsBelow-leftover exhausted hi batch ys h = IsBelow-drop 0 hi batch ys h
IsBelow-leftover unsettled hi batch ys h = h

-- A sound state splits as the theorem below says.
IsSound-settles :
    (how : Ended) (s : Drain) (sound : IsSound s)
    → IsSettled how s.in_flight
        (sound.0 ++ (s.pending ++ sound.1))
        s.channel
        (end_flush how s).channel
unfolding end_flush
IsSound-settles how s (lost, ignored, split, kept, idle, heard, below) =
    let oldest = oldest-batch s.rejected lost s.in_flight (s.pending ++ ignored) split kept idle in
    settle-IsSettled how 0 s.in_flight (lost ++ (s.pending ++ ignored)) s.channel oldest
      (rw oldest at (IsBelow-Above 0 s.channel.next_tag s.channel.outstanding below))

end_flush-IsSound : (how : Ended) (s : Drain) → IsSound s → IsSound (end_flush how s)
unfolding end_flush
end_flush-IsSound how s (lost, ignored, split, kept, idle, heard, below) =
    let behind = lost ++ (s.pending ++ ignored) in
    let (left, next) =
      IsSettled-left how s.in_flight behind s.channel _
        (IsSound-settles how s (lost, ignored, split, kept, idle, heard, below)) in
    let oldest = oldest-batch s.rejected lost s.in_flight (s.pending ++ ignored) split kept idle in
    (
      leftover how s.in_flight ++ lost,
      ignored,
      left ∙ sym (append_assoc (leftover how s.in_flight) lost (s.pending ++ ignored)),
      leftover-rejects how s.in_flight lost s.rejected kept,
      λ _. refl,
      heard,
      rw left (
          rw next
            (IsBelow-leftover how s.channel.next_tag s.in_flight behind (rw oldest at below))),
    )

step-IsSound : (e : Event) (s : Drain) → IsSound s → IsSound (step e s)
unfolding step stop finish chain_flush
step-IsSound (message content) s h = on_message-IsSound content s h
step-IsSound timer s h = on_timer-IsSound s h
step-IsSound start s h = start_flush-IsSound s h
step-IsSound (ended how) s h = end_flush-IsSound how s h
step-IsSound stopping s (lost, ignored, split, kept, idle, heard, below) =
    (lost, ignored, split, kept, idle, λ no. clash true refl no, below)
step-IsSound cancelled s h = if-cases IsSound s.stopped (λ _. h) (λ _. h)

pub run-IsSound : (es : List Event) (s : Drain) → IsSound s → IsSound (run es s)
unfolding run
run-IsSound [] s h = h
run-IsSound (e ∷ es) s h = run-IsSound es (step e s) (step-IsSound e s h)

-- Whatever happened before, a flush that ends settles its own batch and nothing else: a batch that was
-- written is acknowledged and one whose attempts are exhausted is dead-lettered, in order, the other
-- list stays, and the deliveries that were behind the batch remain unsettled, in order; on a channel that
-- is closed both lists stay and the batch remains unsettled too.
pub end_flush-settles_batch :
    (batch_size : ℕ) (es : List Event) (how : Ended)
    → let s = run es (drain_purchase_writes batch_size) in
      (rest : List Delivery) × (s.channel.outstanding ≡ s.in_flight ++ rest)
      × IsSettled how s.in_flight rest s.channel (end_flush how s).channel
end_flush-settles_batch batch_size es how =
    let s = run es (drain_purchase_writes batch_size) in
    let sound =
      run-IsSound es (drain_purchase_writes batch_size)
        (drain_purchase_writes-IsSound batch_size) in
    let (lost, ignored, split, kept, idle, heard, below) = sound in
    (
      lost ++ (s.pending ++ ignored),
      oldest-batch s.rejected lost s.in_flight (s.pending ++ ignored) split kept idle,
      IsSound-settles how s sound,
    )
