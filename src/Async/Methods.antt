-- ===== src/Async/Methods.antt =====
-- The methods of realtime/_async/channel.py and client.py that a user or a task calls, as coroutines.
use realtime_py.Prelude.{
  ℕ, zero, suc, String, not, ◌&&◌, Option, none, some, [], ◌∷◌, max, is_empty, if◌then◌else◌,
}
use realtime_py.Prelude.Dict.{contains, get_or}
use realtime_py.Types.{Json, ChannelStates, Payload, json, token, wrapped_config}
use realtime_py.Types.ChannelEvents
use realtime_py.World.{
  subscribed_before, not_subscribed, assertion_error, not_connected, ⊤, raise, gets, modify, pure,
}
use realtime_py.Channel
use realtime_py.Channel.{in_state, schedule_rejoin}
use realtime_py.Push
use realtime_py.Push.{new_push}
use realtime_py.Socket.{make_ref}
use realtime_py.Subscription.{prepare_join, push_later, can_push, join_config, timeout_or}
use realtime_py.Client
use realtime_py.Client.{heartbeat_message}
use realtime_py.Messages.{dispatch}
use realtime_py.Async.{Co, lift, await, skip, when, ◌>>=◌, ◌>>◌}
use realtime_py.Async.Calls.{
  slept_for, for_channels, send, push_send, unsubscribe, rejoin, connect, on_connect_error,
  on_closed,
}
use realtime_py.Stable.Run.{
  Action, creates, connects, closes, removes_all, heartbeats, loses_connection, subscribes, pushes,
  broadcasts, tracks, untracks, joins, unsubscribes, removes, rejoins, listens_broadcast,
  listens_postgres, listens_system, listens_sync, listens_join, listens_leave, registers, sends,
  times_out, sets_auth, receives,
}

unfoldable pub close : Co ⊤
close = do connected ← lift (gets (λ w. w.is_connected)); when connected await; lift Client.close

module _ (closed : Co ⊤) where
  unfoldable pub subscribe : ℕ → Option ℕ → Co ⊤
  subscribe c f = do
    connected ← lift (gets (λ w. w.is_connected))
    when (not connected) (connect closed)
    joined_once ← lift (gets (λ w. (w.channel_at c).joined_once))
    when joined_once (lift (raise subscribed_before))
    lift (prepare_join c f)
    rejoin closed c

  -- The branch of `push` that sends at once, with its assertion.
  unfoldable pub push_out : ℕ → Co ℕ
  push_out p = do
    push_send closed p
    ref ← lift (gets (λ w. (w.push_at p).ref))
    lift (elim ref [ none ↦ raise assertion_error | some _ ↦ pure p ])

  -- The part of `push` after its guard.
  unfoldable pub push_now : ℕ → String → Payload → Option ℕ → Co ℕ
  push_now c event payload timeout = do
    w ← lift (gets (λ w. w))
    p ← lift (new_push c event payload (timeout_or timeout (w.channel_at c).timeout))
    (if can_push c w then push_out p else lift (push_later c p))

  unfoldable pub push : ℕ → String → Payload → Option ℕ → Co ℕ
  push c event payload timeout = do
    joined_once ← lift (gets (λ w. (w.channel_at c).joined_once))
    (if joined_once then push_now c event payload timeout else lift (raise not_subscribed))

  unfoldable pub join : ℕ → Co ⊤
  join c = do
    ch ← lift (gets (λ w. w.channel_at c))
    ref ← lift make_ref
    send closed (record {
      event = ChannelEvents.join;
      payload = ("config", wrapped_config (join_config ch)) ∷ [];
      topic = ch.topic;
      ref = some ref;
    })

  unfoldable pub send_broadcast : ℕ → String → Json → Co ⊤
  send_broadcast c event body =
      push c ChannelEvents.broadcast
        (("type", json "broadcast") ∷ ("event", json event) ∷ ("payload", json body) ∷ []) none
      >> skip

  unfoldable pub send_presence : ℕ → String → Json → Co ⊤
  send_presence c event body =
      push c ChannelEvents.presence (("event", json event) ∷ ("payload", json body) ∷ []) none
      >> skip

  unfoldable pub track : ℕ → Json → Co ⊤
  track c user_status = send_presence c "track" user_status

  unfoldable pub untrack : ℕ → Co ⊤
  untrack c = send_presence c "untrack" "{}"

  unfoldable pub rejoin_until_connected : ℕ → Co ⊤
  rejoin_until_connected c = do
    lift (schedule_rejoin c)
    connected ← lift (gets (λ w. w.is_connected))
    when connected (rejoin closed c)

  -- One round of the loop of `_heartbeat`; times are in milliseconds.
  unfoldable pub heartbeat_round : Co ⊤
  heartbeat_round = do
    send closed heartbeat_message
    n ← lift (gets (λ w. max w.hb_interval 15000))
    lift (slept_for n)
    await

  -- `_heartbeat`, for so many rounds at most.
  unfoldable pub heartbeat_rounds : ℕ → Co ⊤
  heartbeat_rounds zero = skip
  heartbeat_rounds (suc rounds) =
      let rest = heartbeat_rounds rounds in
      lift (gets (λ w. w.is_connected)) >>= λ connected. when connected (heartbeat_round >> rest)

  unfoldable pub heartbeat : ℕ → Co ⊤
  heartbeat rounds = do
    connected ← lift (gets (λ w. w.is_connected))
    (if connected then heartbeat_rounds rounds else lift (raise (not_connected "_heartbeat")))

  unfoldable pub remove_channel : ℕ → Co ⊤
  remove_channel c = do
    w ← lift (gets (λ w. w))
    let topic = (w.channel_at c).topic
    when (contains topic w.channels) (unsubscribe closed (get_or topic c w.channels))
    empty ← lift (gets (λ w. is_empty w.channels))
    when empty close

  unfoldable pub remove_all_channels : Co ⊤
  remove_all_channels = for_channels (unsubscribe closed) >> close

  -- The body of the loop of `set_auth`.
  unfoldable pub send_token : Option String → ℕ → Co ⊤
  send_token new_token c = do
    joined ←
        lift (
          gets (λ w. let ch = w.channel_at c in ch.joined_once && in_state ChannelStates.joined ch))
    when joined
        (push c ChannelEvents.access_token (("access_token", token new_token) ∷ []) none >> skip)

  unfoldable pub set_auth : Option String → Co ⊤
  set_auth new_token = do
    lift (modify (λ w. record w { access_token = new_token }))
    for_channels (send_token new_token)

-- The task that a call of the user, of a task or of the loop on the messages of the server makes.
abbrev pub task : ℕ → Action → Co ⊤
task fuel (creates name params) = lift (Client.channel name params) >> skip
task fuel connects = connect (on_closed fuel)
task fuel closes = close
task fuel removes_all = remove_all_channels (on_closed fuel)
task fuel heartbeats = heartbeat_round (on_closed fuel)
task fuel loses_connection = on_connect_error (on_closed fuel)
task fuel (subscribes c f) = subscribe (on_closed fuel) c f
task fuel (pushes c event payload timeout) = push (on_closed fuel) c event payload timeout >> skip
task fuel (broadcasts c event body) = send_broadcast (on_closed fuel) c event body
task fuel (tracks c user_status) = track (on_closed fuel) c user_status
task fuel (untracks c) = untrack (on_closed fuel) c
task fuel (joins c) = join (on_closed fuel) c
task fuel (unsubscribes c) = unsubscribe (on_closed fuel) c
task fuel (removes c) = remove_channel (on_closed fuel) c
task fuel (rejoins c) = rejoin_until_connected (on_closed fuel) c
task fuel (listens_broadcast c event f) = lift (Channel.on_broadcast c event f)
task fuel (listens_postgres c event f table schema filter) =
    lift (Channel.on_postgres_changes c event f table schema filter)
task fuel (listens_system c f) = lift (Channel.on_system c f)
task fuel (listens_sync c f) = lift (Channel.on_presence_sync c f)
task fuel (listens_join c f) = lift (Channel.on_presence_join c f)
task fuel (listens_leave c f) = lift (Channel.on_presence_leave c f)
task fuel (registers p status h) = lift (Push.receive p status h)
task fuel (sends p) = push_send (on_closed fuel) p
task fuel (times_out p) = await >> lift (Push.timeout_elapsed p)
task fuel (sets_auth new_token) = set_auth (on_closed fuel) new_token
task fuel (receives message) = lift (dispatch message)
