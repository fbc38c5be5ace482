-- ===== src/Tests/Examples.antt =====
-- Runs of usage.py.
use realtime_py.Prelude.{◌≡◌, refl, false, [], ◌∷◌, map}
use realtime_py.Prelude.Dict.{lookup, insert}
use realtime_py.Types.{ChannelStates}
use realtime_py.World.{World, put_at}
use realtime_py.Async.Calls
use realtime_py.Async.{run, bind, try}
use realtime_py.Usage.{usage_client, main, test}

abbrev subscribed : World
subscribed = (run main (usage_client [] [])).1

main_joins :
    ((subscribed.channel_at 0).state ≡ ChannelStates.joining)
    × (map (λ m. m.topic) subscribed.wire ≡ "realtime:test-channel" ∷ [])
unfolding run main bind try insert lookup put_at realtime_py.Client.init realtime_py.Client.channel
    realtime_py.Subscription.init_channel realtime_py.Push.new_push realtime_py.Push.receive
    realtime_py.Push.update_payload realtime_py.Push.start_timeout
    realtime_py.Subscription.prepare_join realtime_py.Async.Methods.subscribe Calls.rejoin
    Calls.connect Calls.connect_loop Calls.attempt Calls.dial Calls.retry Calls.on_connect
    Calls.flush_send_buffer Calls.leave_open_topic Calls.resend Calls.push_send Calls.send
    Calls.send_message Calls.hand Calls.after_send realtime_py.Socket.restart_tasks
    realtime_py.Socket.dup_channels realtime_py.Socket.register realtime_py.Socket.make_ref
    realtime_py.Channel.set_state
main_joins = (refl, refl)

abbrev listening : World
listening = (test (usage_client [] [])).1

-- The channel of `test` has its listeners, and never joins.
test_waits :
    ((listening.channel_at 0).joined_once ≡ false)
    × (map (λ l. l.callback) (listening.channel_at 0).postgres_changes_callbacks ≡ 1 ∷ 2 ∷ 3 ∷ [])
    × (listening.wire ≡ [])
unfolding test put_at realtime_py.Client.init realtime_py.Client.channel
    realtime_py.Subscription.init_channel realtime_py.Push.new_push realtime_py.Push.receive
    realtime_py.Channel.on_postgres_changes
test_waits = (refl, refl, refl)
