-- ===== src/Socket.antt =====
-- The part of realtime/_async/client.py and channel.py that sends. A send can find the connection
-- closed, which reconnects, which sends: `closed` stands for `_on_connect_error`, and `on_closed`
-- ties the knot on fuel.
pub mod Sending
pub mod Dialing
pub mod Fuel
pub mod Expired
pub mod Resending
pub mod Taken
pub mod Rejoining
pub mod Repeats
pub mod Offline
use realtime_py.Prelude.{
  ℕ, zero, suc, ◌+◌, ◌-◌, ◌*◌, ◌^◌, min, String, Bool, true, false, not, ◌&&◌, ◌||◌, Option, none,
  some, List, [], ◌∷◌, ◌++◌, map, is_empty, leb, keep, str_eq, if◌then◌else◌,
}
use realtime_py.Prelude.Dict.{Dict, insert}
use realtime_py.Prelude.Decimal.{decimal}
use realtime_py.Types.{ChannelStates, RealtimeAcknowledgementStatus, Message, default_timeout}
use realtime_py.Types.ChannelEvents
use realtime_py.Timer.{cancel_some, create_task}
use realtime_py.World.{
  World, Channel, Push, leave_close, Job, run_listen, run_heartbeat, SendOutcome, set_push, Error,
  not_connected, dial_failed, gave_up, out_of_fuel, M, ⊤, Outcome, returns, raises, pure, raise,
  gets, modify, continue, ◌>>=◌, ◌>>◌, skip, when, for_each, modify_channel, modify_push,
}
use realtime_py.Channel.{in_state, set_state, reset_rejoin_timer}
use realtime_py.Push.{new_push, start_timeout, destroy, receive}

-- `_make_ref`
unfoldable pub make_ref : M String
make_ref w = (returns (decimal (w.ref + 1)), record w { ref = w.ref + 1 })

-- The channels of `self.channels.values()`.
abbrev pub values : World → List ℕ
values w = map (λ e. e.1) w.channels

-- The answer of the socket to the next `send`, which is taken off the list.
abbrev pub next_outcome : List SendOutcome → SendOutcome
next_outcome [] = SendOutcome.sent
next_outcome (o ∷ os) = o

abbrev pub rest_of {ℓ} : {A : Type ℓ} → List A → List A
rest_of [] = []
rest_of (x ∷ xs) = xs

-- `AsyncPush.send` up to its message: the push is entered under a new reference.
unfoldable pub register : ℕ → M Message
register p = do
  ref ← make_ref
  modify_push p (λ ps. record ps { ref = some ref })
  ps ← gets (λ w. w.push_at p)
  modify_channel ps.channel
      (λ ch. record ch { messages_waiting_for_ack = insert ref p ch.messages_waiting_for_ack })
  start_timeout p
  modify_push p (λ ps. record ps { sent = true })
  ch ← gets (λ w. w.channel_at ps.channel)
  pure (record { topic = ch.topic; event = ps.event; ref = some ref; payload = ps.payload })

abbrev pub has_timed_out : Push → Bool
has_timed_out ps = elim ps.received_resp [
  | none ↦ false
  | some (s, r) ↦ elim s [ RealtimeAcknowledgementStatus.timeout ↦ true | _ ↦ false ]
]

-- The channels that `_leave_open_topic` leaves.
unfoldable pub dup_channels : String → World → List ℕ
dup_channels topic w =
    keep
      (λ c.
        let ch = w.channel_at c in
        str_eq ch.topic topic
        && (in_state ChannelStates.joined ch || in_state ChannelStates.joining ch))
      (values w)

-- `_on_connect` up to the flush: the old tasks are cancelled, and two new ones created.
unfoldable pub restart_tasks : M ⊤
restart_tasks w =
    let tasks = cancel_some w.heartbeat_task (cancel_some w.listen_task w.tasks) in
    let (tasks1, listen) = create_task run_listen 0 tasks in
    let (tasks2, heartbeat) = create_task run_heartbeat 0 tasks1 in
    (
      returns tt,
      record w { tasks = tasks2; listen_task = some listen; heartbeat_task = some heartbeat },
    )

-- Whether the next `connect(self.url)` succeeds.
abbrev pub dials : List Bool → Bool
dials [] = true
dials (b ∷ bs) = b

-- Times are in milliseconds.
abbrev pub max_backoff : ℕ
max_backoff = 60000

-- `backoff * (2 ** (retries - 1))`, once `retries` is 1 more than here
unfoldable pub wait_time : ℕ → ℕ → ℕ
wait_time backoff retries = backoff * 2 ^ retries

unfoldable pub next_backoff : ℕ → ℕ
next_backoff backoff = min (backoff * 2) max_backoff

-- The error of the model itself, which is no exception of the program: no handler catches it.
abbrev pub is_out_of_fuel : Error → Bool
is_out_of_fuel out_of_fuel = true
is_out_of_fuel _ = false

-- Whether `connect` raises the error of an attempt.
abbrev pub gives_up : ℕ → Error → World → Bool
gives_up retries e w = leb w.max_retries (retries + 1) || not w.auto_reconnect || is_out_of_fuel e

module _ (closed : M ⊤) where
  -- `await self._ws_connection.send(message_str)` and its handlers.
  unfoldable pub answer : Message → SendOutcome → M ⊤
  answer message SendOutcome.sent = modify (λ w. record w { wire = w.wire ++ message ∷ [] })
  answer message SendOutcome.closed_error = closed
  answer message SendOutcome.closed_ok = skip

  -- `send_message` of `send`
  unfoldable pub send_message : Message → M ⊤
  unfolding answer
  send_message message w =
      if w.is_connected
      then answer message (next_outcome w.send_outcomes)
          (record w { send_outcomes = rest_of w.send_outcomes })
      else raise (not_connected "_send") w

  -- `AsyncRealtimeClient.send`
  unfoldable pub send : Message → M ⊤
  send message w =
      if w.is_connected
      then send_message message w
      else (returns tt, record w { send_buffer = w.send_buffer ++ message ∷ [] })

  -- `AsyncPush.send`
  unfoldable pub push_send : ℕ → M ⊤
  push_send p w = if has_timed_out (w.push_at p) then (returns tt, w) else (register p >>= send) w

  -- `AsyncPush.resend`
  unfoldable pub resend : ℕ → M ⊤
  resend p =
      modify_push p (λ ps. record ps { ref = none; received_resp = none; sent = false })
      >> push_send p

  -- `AsyncRealtimeChannel.unsubscribe`
  unfoldable pub unsubscribe : ℕ → M ⊤
  unsubscribe c = do
    set_state c ChannelStates.leaving
    reset_rejoin_timer c
    join_push ← gets (λ w. (w.channel_at c).join_push)
    destroy join_push
    leave_push ← new_push c ChannelEvents.leave [] default_timeout
    receive leave_push RealtimeAcknowledgementStatus.ok (leave_close c)
    receive leave_push RealtimeAcknowledgementStatus.error (leave_close c)
    push_send leave_push

  unfoldable pub leave_open_topic : String → M ⊤
  leave_open_topic topic w = for_each unsubscribe (dup_channels topic w) w

  -- `AsyncRealtimeChannel._rejoin`
  unfoldable pub rejoin : ℕ → M ⊤
  rejoin c w =
      let ch = w.channel_at c in
      if in_state ChannelStates.leaving ch
      then (returns tt, w)
      else (leave_open_topic ch.topic >> set_state c ChannelStates.joining >> resend ch.join_push) w

  unfoldable pub flush_send_buffer : M ⊤
  flush_send_buffer w =
      if w.is_connected && not (is_empty w.send_buffer)
      then (for_each send_message w.send_buffer >> modify (λ v. record v { send_buffer = [] })) w
      else (returns tt, w)

  unfoldable pub on_connect : M ⊤
  on_connect = restart_tasks >> flush_send_buffer

  -- The body of the `try` of `connect`.
  unfoldable pub attempt : M ⊤
  attempt w =
      let w' = record w { dial_outcomes = rest_of w.dial_outcomes } in
      if dials w.dial_outcomes
      then on_connect (record w' { is_connected = true })
      else raise dial_failed w'

  -- The loop of `connect`, with the rounds that are left.
  unfoldable pub connect_loop : ℕ → ℕ → ℕ → M ⊤
  connect_loop zero retries backoff w = raise gave_up w
  connect_loop (suc left) retries backoff w =
      let again = λ (v : World).
        connect_loop left (retries + 1) (next_backoff backoff)
          (record v { slept = v.slept ++ wait_time backoff retries ∷ [] }) in
      let (r, w') = attempt w in
      elim r [
        | returns _ ↦ (returns tt, w')
        | raises e ↦ if gives_up retries e w' then (raises e, w') else again w'
      ]

  unfoldable pub connect : M ⊤
  connect w =
      if w.is_connected then (returns tt, w) else connect_loop w.max_retries 0 w.initial_backoff w

  unfoldable pub reconnect : M ⊤
  reconnect = do
    modify (λ w. record w { is_connected = false })
    connect
    connected ← gets (λ w. w.is_connected)
    topics ← gets values
    when connected (for_each rejoin topics)

  unfoldable pub on_connect_error : M ⊤
  on_connect_error w = if w.auto_reconnect then reconnect w else (returns tt, w)

-- `_on_connect_error`, for so many closed connections at most.
unfoldable pub on_closed : ℕ → M ⊤
on_closed zero = raise out_of_fuel
on_closed (suc fuel) = let again = on_closed fuel in on_connect_error again
