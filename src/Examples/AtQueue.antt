-- ===== src/Examples/AtQueue.antt =====
-- The theorems about packages/queue at a run of the consumer and of the connection.
use sd_flash_sale.Prelude.{
  ℕ, ◌≡◌, refl, false, List, [], ◌∷◌, ◌++◌, none, some, if◌then◌else◌, ltb, suc, ◌*◌, ◌^◌, ◌||◌,
  not, ◌==◌, is_some, true,
}
use sd_flash_sale.Prelude.Result.{Result, ok, throws}
use sd_flash_sale.Database.Server.{Thrown, primitive}
use sd_flash_sale.Queue.Messages.{PurchaseWriteMessage}
use sd_flash_sale.Queue.Drain.{
  Delivery, Event, message, start, wrote, run, step, on_message, start_flush, end_flush,
  drain_purchase_writes, is_empty,
}
use sd_flash_sale.Queue.Drain
use sd_flash_sale.Queue.Drain.Retry.{Writer, attempts}
use sd_flash_sale.Queue.Drain.Retry.Laws.{IsTriedFrom, attempts-first_success}
use sd_flash_sale.Queue.Drain.Settled.{end_flush-settles_batch}
use sd_flash_sale.Queue.Drain.Settled.Ordered.{IsSettled}
use sd_flash_sale.Queue.Drain.Accounted.{times, is_given, run-IsAccounted_once, run-flushes_pending}
use sd_flash_sale.Queue.Connection.{
  create_queue_connection, close, reconnect_delay, connects, timer, fails,
}
use sd_flash_sale.Queue.Connection
use sd_flash_sale.Queue.Connection.Laws.{reconnect_delay_lem, run-stays_alive, IsDown, close-IsDown}
use sd_flash_sale.Queue.Connection.Laws
use sd_flash_sale.Examples.DatabaseStub.{sale_id, ann}

abbrev body : PurchaseWriteMessage
body = record { sale_id = sale_id; email = ann; reserved_at = 150 }

-- It throws twice, then writes.
abbrev write_third : List PurchaseWriteMessage → ℕ → Result Thrown (Unit {0}) × ℕ
write_third entries n = (if ltb n 2 then throws primitive else ok tt, suc n)

abbrev third : Writer ℕ
third = record { write_batch = write_third; ack = λ n. ok tt }

attempts-first_success_example :
    IsTriedFrom third 5 200 5 1 (body ∷ []) 0 (attempts third 5 200 (body ∷ []) 0)
attempts-first_success_example = attempts-first_success third 5 200 (body ∷ []) 0

abbrev events : List Event
events = message (some body) ∷ message (some body) ∷ start ∷ message none ∷ Event.timer ∷ []

end_flush-settles_batch_example :
    let s = run events (drain_purchase_writes 2) in
    (rest : List Delivery) × (s.channel.outstanding ≡ s.in_flight ++ rest)
    × IsSettled wrote s.in_flight rest s.channel (end_flush wrote s).channel
end_flush-settles_batch_example = end_flush-settles_batch 2 events wrote

not_rejected : (run events (drain_purchase_writes 2)).rejected ≡ false
unfolding run step on_message start_flush Drain.on_timer Drain.chain_flush Drain.schedule_flush
    drain_purchase_writes
not_rejected = refl

run-IsAccounted_once_example :
    let s = run events (drain_purchase_writes 2) in
    (ignored : List Delivery) × (s.channel.outstanding ≡ s.in_flight ++ (s.pending ++ ignored))
    × ((s.stopped || is_empty ignored) ≡ true)
    × (times 1 s.channel ≡ (if is_given 1 s.channel then 1 else 0))
run-IsAccounted_once_example = run-IsAccounted_once 2 events 1 not_rejected

run-flushes_pending_example :
    let s = run events (drain_purchase_writes 2) in
    (s.rejected || is_empty s.pending || s.flush_timer || ltb 0 s.chained) ≡ true
run-flushes_pending_example = run-flushes_pending 2 events

reconnect_delay_lem_example : reconnect_delay 4 ≡ (if ltb 3 5 then 500 * 2 ^ 3 else 10000)
reconnect_delay_lem_example = reconnect_delay_lem 3

run-stays_alive_example :
    let s = Connection.run (connects ∷ Connection.Event.down 0 ∷ []) create_queue_connection in
    (s.channel ≡ s.connection)
    × ((s.closed || is_some s.channel || not (Laws.is_empty s.timers) || not (s.connecting == 0))
        ≡ true)
run-stays_alive_example = run-stays_alive (connects ∷ Connection.Event.down 0 ∷ [])

idle : (Connection.run (connects ∷ []) create_queue_connection).connecting ≡ 0
unfolding Connection.run Connection.step Connection.connected create_queue_connection
    Connection.connect_once
idle = refl

close-IsDown_example : IsDown (
    Connection.run
      (Connection.Event.timer ∷ [])
      (close (Connection.run (connects ∷ []) create_queue_connection)))
close-IsDown_example = close-IsDown (connects ∷ []) (Connection.Event.timer ∷ []) idle
