-- ===== src/Queue/Connection.antt =====
-- packages/queue/src/connection.ts: the connection that comes back by itself. Its callbacks run one at a
-- time; `connectOnce` is a step that starts and a step that ends, and the broker names its connections.
pub mod Laws
use sd_flash_sale.Prelude.{
  ℕ, zero, suc, ◌+◌, ◌-◌, ◌*◌, ◌^◌, min, Bool, true, false, ◌&&◌, List, [], ◌∷◌, Option, none, some,
  ◌==◌, if◌then◌else◌,
}

abbrev pub reconnect_base_delay_ms : ℕ
reconnect_base_delay_ms = 500

abbrev pub reconnect_max_delay_ms : ℕ
reconnect_max_delay_ms = 10000

-- `timers` are the delays of the reconnects that are scheduled, oldest first; `connecting` counts the
-- calls of `connectOnce` that wait for the broker. A channel is named by its connection.
pub record QueueConnection : Type 0 where
  pub channel : Option ℕ
  pub connection : Option ℕ
  pub closed : Bool
  pub attempt : ℕ
  pub timers : List ℕ
  pub connecting : ℕ
  pub next_connection : ℕ

unfoldable pub reconnect_delay : ℕ → ℕ
reconnect_delay attempt = min (reconnect_base_delay_ms * 2 ^ (attempt - 1)) reconnect_max_delay_ms

abbrev pub push_timer : ℕ → List ℕ → List ℕ
push_timer delay [] = delay ∷ []
push_timer delay (t ∷ ts) = t ∷ push_timer delay ts

unfoldable pub schedule_reconnect : QueueConnection → QueueConnection
unfolding reconnect_delay
schedule_reconnect s = if s.closed then s else record s {
  attempt = s.attempt + 1;
  timers = push_timer (reconnect_delay (s.attempt + 1)) s.timers;
}

-- Up to the first `await`
unfoldable pub connect_once : QueueConnection → QueueConnection
connect_once s = if s.closed then s else record s { connecting = s.connecting + 1 }

-- A timer's callback
unfoldable pub on_timer : List ℕ → QueueConnection → QueueConnection
unfolding connect_once
on_timer [] s = s
on_timer (t ∷ ts) s = connect_once (record s { timers = ts })

-- The rest of the `try`
unfoldable pub connected : QueueConnection → QueueConnection
connected s = record s {
  attempt = 0;
  connection = some (s.next_connection);
  channel = some (s.next_connection);
  connecting = s.connecting - 1;
  next_connection = s.next_connection + 1;
}

-- The `catch`
unfoldable pub failed : QueueConnection → QueueConnection
unfolding schedule_reconnect
failed s = schedule_reconnect (record s { connecting = s.connecting - 1 })

abbrev pub is_current : ℕ → Option ℕ → Bool
is_current id none = false
is_current id (some c) = c == id

-- `onDown` of the connection with this name, for its "error" as for its "close"
unfoldable pub on_down : ℕ → QueueConnection → QueueConnection
unfolding schedule_reconnect
on_down id s =
    schedule_reconnect
      (if is_current id s.connection then record s { connection = none; channel = none } else s)

unfoldable pub close : QueueConnection → QueueConnection
close s = record s { closed = true; channel = none; connection = none }

pub data Event : Type 0 where
  timer connects fails closing : Event
  down : ℕ → Event

unfoldable pub step : Event → QueueConnection → QueueConnection
step timer s = on_timer s.timers s
step connects s = if s.connecting == 0 then s else connected s
step fails s = if s.connecting == 0 then s else failed s
step closing s = close s
step (down id) s = on_down id s

unfoldable pub run : List Event → QueueConnection → QueueConnection
run [] s = s
run (e ∷ es) s = run es (step e s)

-- `createQueueConnection`, up to the first `await` of its `connectOnce`
unfoldable pub create_queue_connection : QueueConnection
unfolding connect_once
create_queue_connection = connect_once record {
  channel = none;
  connection = none;
  closed = false;
  attempt = 0;
  timers = [];
  connecting = 0;
  next_connection = 0;
}
