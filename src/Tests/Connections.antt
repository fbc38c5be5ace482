-- ===== src/Tests/Connections.antt =====
-- Runs of the client that dials and sends.
use realtime_py.Prelude.{
  ℕ, ◌*◌, ◌^◌, ◌≡◌, ◌≢◌, refl, true, false, none, some, [], ◌∷◌, ◌++◌, arith, get_elem?,
}
use realtime_py.Types.{Message}
use realtime_py.World.{World, SendOutcome, dial_failed, out_of_fuel, returns, raises, skip}
use realtime_py.Socket.{
  send, send_message, connect, connect_loop, attempt, reconnect, on_connect_error, rejoin,
  unsubscribe, on_closed, on_connect, restart_tasks, flush_send_buffer,
}
use realtime_py.Socket.Offline.{offline_messages_arrive}
use realtime_py.Socket.Repeats.{flush_repeats}
use realtime_py.Socket.Dialing.{waits, connect_gives_up, connect_recovers, connect_waits}
use realtime_py.Socket.Sending.{send_all}
use realtime_py.Socket.Fuel.Enough.{enough_fuel}
use realtime_py.Tests.{offline, online}

abbrev hello : Message
hello = record { event = "hello"; payload = []; topic = "realtime:room"; ref = none }

-- Two dials fail, and then a third.
abbrev unreachable : World
unreachable = record offline { dial_outcomes = false ∷ false ∷ false ∷ [] }

connect_gives_up_example :
    connect skip unreachable
    ≡ (raises dial_failed, record unreachable { dial_outcomes = []; slept = [] ++ waits 2 0 1000 })
connect_gives_up_example = connect_gives_up skip 2 unreachable [] refl refl refl refl

abbrev flaky : World
flaky = record offline { dial_outcomes = false ∷ true ∷ [] }

abbrev greeted : World
greeted =
    (restart_tasks
      (record flaky { is_connected = true; dial_outcomes = []; slept = [] ++ waits 1 0 1000 })).1

flaky-greeted :
    on_connect skip
      (record flaky { is_connected = true; dial_outcomes = []; slept = [] ++ waits 1 0 1000 })
    ≡ (returns tt, greeted)
unfolding on_connect restart_tasks flush_send_buffer
flaky-greeted = refl

connect_recovers_example : connect skip flaky ≡ (returns tt, greeted)
connect_recovers_example =
    connect_recovers skip 1 1 flaky greeted [] refl refl refl refl flaky-greeted

connect_waits_example : get_elem? (connect skip unreachable).1.slept 1 ≡ some (1000 * 2 ^ 1 * 2 ^ 1)
connect_waits_example =
    connect_waits skip 2 1 unreachable [] refl refl refl refl refl (omega arith) (omega arith)

abbrev offline_flaky : World
offline_flaky = record offline { dial_outcomes = false ∷ true ∷ [] }

offline_messages_arrive_example :
    let (r, w') = send_all skip (hello ∷ hello ∷ []) offline_flaky in
    let (r', w'') = connect skip w' in
    (r ≡ returns tt)
    × (r' ≡ returns tt)
    × (w''.is_connected ≡ true)
    × (w''.wire ≡ [] ++ ([] ++ hello ∷ hello ∷ []))
    × (w''.send_buffer ≡ [])
offline_messages_arrive_example =
    offline_messages_arrive skip (hello ∷ hello ∷ []) 1 1 [] offline_flaky refl refl refl refl refl

abbrev cut_off : World
cut_off = record online { send_outcomes = SendOutcome.closed_error ∷ SendOutcome.closed_error ∷ [] }

-- With less fuel the error is seen, also where the message that is lost was buffered for `connect`.
starved :
    (send (on_closed 1) hello (record cut_off { send_buffer = hello ∷ [] })).0 ≡ raises out_of_fuel
unfolding send send_message on_closed on_connect_error reconnect connect connect_loop attempt
    on_connect restart_tasks flush_send_buffer
starved = refl

enough_fuel_example :
    let closed = on_closed 2 in
    ((m : Message) → (send closed m cut_off).0 ≢ raises out_of_fuel)
    × ((connect closed cut_off).0 ≢ raises out_of_fuel)
    × ((c : ℕ) → (rejoin closed c cut_off).0 ≢ raises out_of_fuel)
    × ((c : ℕ) → (unsubscribe closed c cut_off).0 ≢ raises out_of_fuel)
enough_fuel_example = enough_fuel 2 cut_off (omega arith)

abbrev cut_off_in_flush : World
cut_off_in_flush = record online {
  channels = [];
  send_buffer = hello ∷ hello ∷ hello ∷ [];
  send_outcomes = SendOutcome.closed_error ∷ [];
  dial_outcomes = true ∷ [];
}

flush_repeats_example :
    let (r, w') = flush_send_buffer (on_closed 1) cut_off_in_flush in
    (r ≡ returns tt)
    × (w'.wire ≡ ([] ++ hello ∷ hello ∷ hello ∷ []) ++ hello ∷ hello ∷ [])
    × (w'.send_buffer ≡ [])
flush_repeats_example =
    flush_repeats 0 2 [] hello (hello ∷ hello ∷ []) cut_off_in_flush refl refl refl refl refl refl
      refl
