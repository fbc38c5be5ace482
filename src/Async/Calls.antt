-- ===== src/Async/Calls.antt =====
-- The methods of realtime/_async/client.py, channel.py and push.py as coroutines: the blocks of the
-- other modules, with the awaits on the socket, the dials and the sleeps between them.
use realtime_py.Prelude.{
  ℕ, zero, suc, ◌+◌, String, true, false, not, ◌&&◌, none, some, [], ◌∷◌, ◌++◌, is_empty,
  if◌then◌else◌, length, get_elem?, ◌==◌,
}
use realtime_py.Types.{ChannelStates, RealtimeAcknowledgementStatus, Message, default_timeout}
use realtime_py.Types.ChannelEvents
use realtime_py.World.{
  leave_close, SendOutcome, not_connected, dial_failed, gave_up, out_of_fuel, dict_changed, M, ⊤,
  Outcome, returns, raises, raise, gets, modify, modify_push,
}
use realtime_py.Channel.{in_state, set_state, reset_rejoin_timer}
use realtime_py.Push.{new_push, destroy, receive}
use realtime_py.Socket.{
  gives_up, next_outcome, rest_of, register, has_timed_out, dup_channels, restart_tasks, dials,
  values, wait_time, next_backoff,
}
use realtime_py.Async.{Co, lift, await, try, skip, when, for_each, ◌>>=◌, ◌>>◌}

-- What `send_message` does up to its await: a message that the socket will take is on the wire.
unfoldable pub hand : Message → M SendOutcome
hand message w =
    let o = next_outcome w.send_outcomes in
    let w' = record w { send_outcomes = rest_of w.send_outcomes } in
    if w.is_connected
    then (
      returns o,
      elim o [ SendOutcome.sent ↦ record w' { wire = w.wire ++ message ∷ [] } | _ ↦ w' ],
    )
    else raise (not_connected "_send") w

-- The connection that a dial gives, once its await is over.
unfoldable pub dial : M ⊤
dial w =
    let w' = record w { dial_outcomes = rest_of w.dial_outcomes } in
    if dials w.dial_outcomes
    then (returns tt, record w' { is_connected = true })
    else raise dial_failed w'

unfoldable pub slept_for : ℕ → M ⊤
slept_for n = modify (λ w. record w { slept = w.slept ++ n ∷ [] })

-- The next channel of a loop over `self.channels.items()` with so many entries at its start.
unfoldable pub entry : ℕ → ℕ → M ℕ
entry n i w =
    if length w.channels == n
    then elim (get_elem? (values w) i) [ none ↦ (raises dict_changed, w) | some c ↦ (returns c, w) ]
    else raise dict_changed w

-- The end of that loop, where Python looks at the size once more.
unfoldable pub same_size : ℕ → M ⊤
same_size n w = if length w.channels == n then (returns tt, w) else raise dict_changed w

-- What `connect` does after a dial: it returns, raises, or sleeps and goes on.
unfoldable pub retry : ℕ → Co ⊤ → Outcome ⊤ → Co ⊤
retry retries again (returns _) = skip
retry retries again (raises e) = do
  stop ← lift (gets (gives_up retries e))
  (if stop then lift (raise e) else again)

module _ (body : ℕ → Co ⊤) where
  unfoldable pub entries : ℕ → ℕ → ℕ → Co ⊤
  entries n zero i = lift (same_size n)
  entries n (suc left) i = let rest = entries n left (i + 1) in lift (entry n i) >>= body >> rest

  unfoldable pub for_channels : Co ⊤
  for_channels = do n ← lift (gets (λ w. length w.channels)); entries n n 0

module _ (closed : Co ⊤) where
  unfoldable pub after_send : SendOutcome → Co ⊤
  after_send SendOutcome.sent = skip
  after_send SendOutcome.closed_error = closed
  after_send SendOutcome.closed_ok = skip

  unfoldable pub send_message : Message → Co ⊤
  send_message message = do o ← lift (hand message); await; after_send o

  unfoldable pub send : Message → Co ⊤
  send message = do
    connected ← lift (gets (λ w. w.is_connected))
    (if connected
        then send_message message
        else lift (modify (λ w. record w { send_buffer = w.send_buffer ++ message ∷ [] })))

  unfoldable pub push_send : ℕ → Co ⊤
  push_send p = do
    timed_out ← lift (gets (λ w. has_timed_out (w.push_at p)))
    (if timed_out then skip else (lift (register p) >>= send))

  unfoldable pub resend : ℕ → Co ⊤
  resend p = do
    lift (modify_push p (λ ps. record ps { ref = none; received_resp = none; sent = false }))
    push_send p

  unfoldable pub unsubscribe : ℕ → Co ⊤
  unsubscribe c = do
    lift (set_state c ChannelStates.leaving)
    lift (reset_rejoin_timer c)
    join_push ← lift (gets (λ w. (w.channel_at c).join_push))
    lift (destroy join_push)
    leave_push ← lift (new_push c ChannelEvents.leave [] default_timeout)
    lift (receive leave_push RealtimeAcknowledgementStatus.ok (leave_close c))
    lift (receive leave_push RealtimeAcknowledgementStatus.error (leave_close c))
    push_send leave_push

  unfoldable pub leave_open_topic : String → Co ⊤
  leave_open_topic topic = do
    channels ← lift (gets (dup_channels topic))
    for_each unsubscribe channels

  unfoldable pub rejoin : ℕ → Co ⊤
  rejoin c = do
    ch ← lift (gets (λ w. w.channel_at c))
    (if in_state ChannelStates.leaving ch
        then skip
        else (leave_open_topic ch.topic
            >> lift (set_state c ChannelStates.joining)
            >> resend ch.join_push))

  unfoldable pub flush_send_buffer : Co ⊤
  flush_send_buffer = do
    w ← lift (gets (λ w. w))
    (if w.is_connected && not (is_empty w.send_buffer)
        then (for_each send_message w.send_buffer
            >> lift (modify (λ v. record v { send_buffer = [] })))
        else skip)

  unfoldable pub on_connect : Co ⊤
  on_connect = lift restart_tasks >> flush_send_buffer

  unfoldable pub attempt : Co ⊤
  attempt = await >> lift dial >> on_connect

  unfoldable pub connect_loop : ℕ → ℕ → ℕ → Co ⊤
  connect_loop zero retries backoff = lift (raise gave_up)
  connect_loop (suc left) retries backoff =
      let again =
        lift (slept_for (wait_time backoff retries))
        >> await
        >> connect_loop left (retries + 1) (next_backoff backoff) in
      try attempt >>= retry retries again

  unfoldable pub connect : Co ⊤
  connect = do
    w ← lift (gets (λ w. w))
    (if w.is_connected then skip else connect_loop w.max_retries 0 w.initial_backoff)

  unfoldable pub reconnect : Co ⊤
  reconnect = do
    lift (modify (λ w. record w { is_connected = false }))
    connect
    connected ← lift (gets (λ w. w.is_connected))
    when connected (for_channels rejoin)

  unfoldable pub on_connect_error : Co ⊤
  on_connect_error = do
    auto_reconnect ← lift (gets (λ w. w.auto_reconnect))
    when auto_reconnect reconnect

-- `_on_connect_error`, for so many closed connections at most.
unfoldable pub on_closed : ℕ → Co ⊤
on_closed zero = lift (raise out_of_fuel)
on_closed (suc fuel) = let again = on_closed fuel in on_connect_error again
