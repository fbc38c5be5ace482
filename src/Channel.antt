-- ===== src/Channel.antt =====
-- realtime/_async/channel.py: what a channel does without sending. The functions that it gives to
-- `AsyncPush.receive` are the cases of `run_hook`.
pub mod States
pub mod Bindings
use realtime_py.Prelude.{
  ℕ, ◌+◌, ◌^◌, String, Bool, true, false, not, ◌&&◌, ◌||◌, Option, none, some, List, [], ◌∷◌, ◌++◌,
  map, is_empty, str_eq, if◌then◌else◌,
}
use realtime_py.Prelude.Dict.{lookup, erase}
use realtime_py.Types.{
  Json, ChannelStates, state_eq, RealtimeSubscribeStates, event_eq, opt_str_eq, PostgresRowChange,
  PostgresChangesCallback, BroadcastCallback, RealtimePostgresChangesListenEvent,
}
use realtime_py.Timer.{reset, schedule_timeout, create_task}
use realtime_py.Presence
use realtime_py.World.{
  World, Channel, Hook, Response, changes, details, nothing, join_ok, join_timeout, leave_close,
  subscribe_ok, subscribe_error, subscribe_timeout, user_hook, Job, run_rejoin_timer, run_send,
  run_unsubscribe, UserCall, subscribe_called, hook_called, set_channel, Error, key_error,
  type_error, M, ⊤, Outcome, returns, raises, pure, raise, gets, modify, continue, ◌>>=◌, ◌>>◌,
  skip, when, for_each, modify_channel,
}

-- The properties `is_closed` and so on.
abbrev pub in_state : ChannelStates → Channel → Bool
in_state s ch = state_eq ch.state s

unfoldable pub set_state : ℕ → ChannelStates → M ⊤
set_state c s = modify_channel c (λ ch. record ch { state = s })

-- `asyncio.create_task` of a coroutine that is not looked at again
unfoldable pub spawn : Job → M ⊤
spawn job = modify (λ w. record w { tasks = (create_task job 0 w.tasks).0 })

unfoldable pub call_user : UserCall → M ⊤
call_user call = modify (λ w. record w { calls = w.calls ++ call ∷ [] })

-- `self.rejoin_timer.reset()`
unfoldable pub reset_rejoin_timer : ℕ → M ⊤
reset_rejoin_timer c w =
    let ch = w.channel_at c in
    let (timer, tasks) = reset ch.rejoin_timer w.tasks in
    (returns tt, record (set_channel c (record ch { rejoin_timer = timer }) w) { tasks = tasks })

-- `lambda tries: 2**tries`
abbrev pub rejoin_delay : ℕ → ℕ
rejoin_delay tries = 2 ^ tries

-- `self.rejoin_timer.schedule_timeout()`
unfoldable pub schedule_rejoin : ℕ → M ⊤
schedule_rejoin c w =
    let ch = w.channel_at c in
    let (timer, tasks) =
      schedule_timeout rejoin_delay (run_rejoin_timer c) ch.rejoin_timer w.tasks in
    (returns tt, record (set_channel c (record ch { rejoin_timer = timer }) w) { tasks = tasks })

-- `AsyncRealtimeClient._remove_channel`: the `del` raises on a missing topic.
unfoldable pub remove_from_client : ℕ → M ⊤
remove_from_client c w =
    let topic = (w.channel_at c).topic in
    elim (lookup topic w.channels) [
      | none ↦ (raises key_error, w)
      | some _ ↦ (returns tt, record w { channels = erase topic w.channels })
    ]

unfoldable pub on_close : ℕ → M ⊤
on_close c = do reset_rejoin_timer c; set_state c ChannelStates.closed; remove_from_client c

unfoldable pub on_error : ℕ → M ⊤
on_error c w =
    let ch = w.channel_at c in
    if in_state ChannelStates.leaving ch || in_state ChannelStates.closed ch
    then skip w
    else (set_state c ChannelStates.errored >> schedule_rejoin c) w

-- `on_join_push_ok` of `__init__`
unfoldable pub on_join_ok : ℕ → M ⊤
on_join_ok c = do
  set_state c ChannelStates.joined
  reset_rejoin_timer c
  buffer ← gets (λ w. (w.channel_at c).push_buffer)
  for_each (λ p. spawn (run_send p)) buffer
  modify_channel c (λ ch. record ch { push_buffer = [] })

-- `on_join_push_timeout` of `__init__`
unfoldable pub on_join_timeout : ℕ → M ⊤
on_join_timeout c w =
    if in_state ChannelStates.joining (w.channel_at c)
    then (set_state c ChannelStates.errored >> schedule_rejoin c) w
    else skip w

-- `callback and callback(...)`
unfoldable pub call_subscriber : Option ℕ → RealtimeSubscribeStates → M ⊤
call_subscriber none s = skip
call_subscriber (some f) s = call_user (subscribe_called f s)

-- The test on a binding of the server and a listener.
unfoldable pub binding_matches : PostgresRowChange → PostgresChangesCallback → Bool
binding_matches server callback =
    event_eq server.events callback.event
    && (opt_str_eq server.schema_ callback.schema
        && (opt_str_eq (some server.table) callback.table
            && opt_str_eq server.filter callback.filter))

-- The loop over the listeners: those seen so far with their ids, and whether all matched. A listener
-- that comes after the mismatch keeps its id.
unfoldable pub bind_all :
    List PostgresChangesCallback → List PostgresRowChange → List PostgresChangesCallback × Bool
bind_all [] servers = ([], true)
bind_all (callback ∷ callbacks) [] = (callback ∷ callbacks, false)
bind_all (callback ∷ callbacks) (server ∷ servers) =
    let (rest, matched) = bind_all callbacks servers in
    if binding_matches server callback
    then (record callback { id = some server.id } ∷ rest, matched)
    else (callback ∷ callbacks, false)

-- `on_join_push_ok` of `subscribe`: without bindings of the server the listeners are dropped.
unfoldable pub on_subscribe_ok : ℕ → Option ℕ → Option (List PostgresRowChange) → M ⊤
on_subscribe_ok c f server_changes w =
    let servers : List PostgresRowChange = elim server_changes [ none ↦ [] | some xs ↦ xs ] in
    let (callbacks, matched) = bind_all (w.channel_at c).postgres_changes_callbacks servers in
    let bound = modify_channel c (λ ch. record ch { postgres_changes_callbacks = callbacks }) in
    if is_empty servers
    then (modify_channel c (λ ch. record ch { postgres_changes_callbacks = [] })
          >> call_subscriber f RealtimeSubscribeStates.subscribed)
        w
    else if matched
    then (bound >> call_subscriber f RealtimeSubscribeStates.subscribed) w
    else (bound
          >> spawn (run_unsubscribe c)
          >> call_subscriber f RealtimeSubscribeStates.channel_error)
        w

abbrev bindings_of : Response → Option (List PostgresRowChange)
bindings_of (changes xs) = xs
bindings_of _ = none

unfoldable pub run_hook : Hook → Response → M ⊤
run_hook (join_ok c) response = on_join_ok c
run_hook (join_timeout c) response = on_join_timeout c
run_hook (leave_close c) response = on_close c
run_hook (subscribe_ok c f) response = on_subscribe_ok c f (bindings_of response)
run_hook (subscribe_error f) response = call_subscriber f RealtimeSubscribeStates.channel_error
run_hook (subscribe_timeout f) response = call_subscriber f RealtimeSubscribeStates.timed_out
run_hook (user_hook f) response = call_user (hook_called f response)

-- The registrations; each also returns the channel itself.
unfoldable pub on_broadcast : ℕ → String → ℕ → M ⊤
on_broadcast c event f = modify_channel c (λ ch. record ch {
  broadcast_callbacks = ch.broadcast_callbacks ++ record { callback = f; event = event } ∷ [];
})

unfoldable pub on_postgres_changes :
    ℕ → RealtimePostgresChangesListenEvent → ℕ → Option String → Option String → Option String → M ⊤
on_postgres_changes c event f table schema filter =
    let callback : PostgresChangesCallback = record {
      callback = f;
      event = event;
      table = table;
      schema = schema;
      filter = filter;
      id = none;
    } in
    modify_channel c (λ ch. record ch {
      postgres_changes_callbacks = ch.postgres_changes_callbacks ++ callback ∷ [];
    })

unfoldable pub on_system : ℕ → ℕ → M ⊤
on_system c f =
    modify_channel c (λ ch. record ch { system_callbacks = ch.system_callbacks ++ f ∷ [] })

unfoldable pub on_presence_sync : ℕ → ℕ → M ⊤
on_presence_sync c f =
    modify_channel c (λ ch. record ch { presence = Presence.on_sync f ch.presence })

unfoldable pub on_presence_join : ℕ → ℕ → M ⊤
on_presence_join c f =
    modify_channel c (λ ch. record ch { presence = Presence.on_join f ch.presence })

unfoldable pub on_presence_leave : ℕ → ℕ → M ⊤
on_presence_leave c f =
    modify_channel c (λ ch. record ch { presence = Presence.on_leave f ch.presence })
