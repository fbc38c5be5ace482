-- ===== src/Tests/Pushes.antt =====
-- Runs of channels and pushes.
use realtime_py.Prelude.{
  get_elem?, ℕ, ◌≡◌, ◌≢◌, refl, String, true, false, none, some, [], ◌∷◌, ◌++◌, map, eq_iff,
}
use realtime_py.Prelude.Dict.{lookup, erase}
use realtime_py.Types.{
  RealtimeAcknowledgementStatus, RealtimeSubscribeStates, ChannelStates, ReplyPayload,
  reply_message, all_events, insert_event, PostgresChangesCallback, PostgresChangesPayload,
  call_postgres,
}
use realtime_py.Types.Callbacks.{Accepts, call_postgres_lem}
use realtime_py.Timer.{reset}
use realtime_py.World.{World, changes, key_error, subscribe_called, returns, raises, put_at}
use realtime_py.Channel.{on_error, on_join_ok, on_close}
use realtime_py.Channel.States.{
  RejoinsAfter, on_error_lem, joined_channel, send_task, on_join_ok_lem, on_close_lem,
}
use realtime_py.Push.{trigger, wake_timeout}
use realtime_py.Push.Timeout.{trigger-push_at}
use realtime_py.Push.Late.{timeout_task_of, subscribed_then_timed_out}
use realtime_py.Messages.{listen}
use realtime_py.Messages.Replies.{listen_unexpected_reply}
use realtime_py.Tests.{room, join_push, online}

eight_named : ◌≢◌ {A = String} "8" ""
eight_named e = cc ((eq_iff "8" "").1 e)

in_client : lookup "realtime:room" online.channels ≡ some 0
unfolding lookup
in_client = refl

not_waiting : lookup "8" (online.channel_at 0).messages_waiting_for_ack ≡ none
unfolding lookup
not_waiting = refl

listen_unexpected_reply_example :
    listen
      (some (reply_message "realtime:room" (some "8") (ReplyPayload.success none)) ∷ none ∷ [])
      online
    ≡ (raises key_error, online)
listen_unexpected_reply_example =
    listen_unexpected_reply 0 "8" (ReplyPayload.success none) online eight_named "realtime:room"
      (none ∷ []) in_client not_waiting

abbrev timed : World
timed = record online { tasks = timeout_task_of 0 10 ∷ [] }

not_named : (timed.channel_at 0).rejoin_timer.timer ≢ some 0
not_named e = cc

subscribed_then_timed_out_example :
    let w1 = (trigger 0 RealtimeAcknowledgementStatus.ok (changes none) timed).1 in
    let (r, w2) = wake_timeout 0 w1 in
    (get_elem? w1.tasks 0 ≡ some (timeout_task_of 0 10))
    × (r ≡ returns tt)
    × (w2.calls
        ≡ ([] ++ subscribe_called 5 RealtimeSubscribeStates.subscribed ∷ [])
          ++ subscribe_called 5 RealtimeSubscribeStates.timed_out ∷ [])
    × ((w2.channel_at 0).state ≡ ChannelStates.joined)
subscribed_then_timed_out_example =
    subscribed_then_timed_out 0 0 5 0 10 timed refl refl refl not_named

trigger-push_at_example :
    (trigger 0 RealtimeAcknowledgementStatus.ok (changes none) online).1.push_at
    ≡ put_at 0
        (record join_push { received_resp = some (RealtimeAcknowledgementStatus.ok, changes none) })
        online.push_at
trigger-push_at_example = trigger-push_at 0 RealtimeAcknowledgementStatus.ok (changes none) online

on_error_lem_example :
    let w' = (on_error 0 online).1 in
    (false ≡ true → w' ≡ online)
    × (false ≡ false → ((w'.channel_at 0).state ≡ ChannelStates.errored) × RejoinsAfter 0 0 w')
on_error_lem_example = on_error_lem 0 online

on_join_ok_lem_example :
    (w' : World) × (on_join_ok 0 online ≡ (returns tt, w'))
    × (w'.channel_at 0 ≡ joined_channel room [])
    × (w'.tasks ≡ (reset room.rejoin_timer online.tasks).1 ++ map send_task room.push_buffer)
    × (w'.calls ≡ [])
    × ((d : ℕ) → 0 ≢ d → w'.channel_at d ≡ room)
on_join_ok_lem_example = on_join_ok_lem 0 online

on_close_lem_example :
    let (r, w') = on_close 0 online in
    ((w'.channel_at 0).state ≡ ChannelStates.closed)
    × ((d : ℕ)
        → lookup "realtime:room" online.channels ≡ some d
        → (r ≡ returns tt) × (w'.channels ≡ erase "realtime:room" online.channels))
    × (lookup "realtime:room" online.channels ≡ none
        → (r ≡ raises key_error) × (w'.channels ≡ online.channels))
on_close_lem_example = on_close_lem 0 online

abbrev listener : PostgresChangesCallback
listener = record {
  callback = 3;
  event = all_events;
  table = some "users";
  schema = some "public";
  filter = none;
  id = some 12;
}

abbrev inserted : PostgresChangesPayload
inserted = record { type_ = insert_event; ids = 11 ∷ 12 ∷ []; body = "{}" }

call_postgres_lem_example :
    (Accepts listener inserted → call_postgres listener inserted ≡ (3, inserted) ∷ [])
    × ((Accepts listener inserted → ⊥) → call_postgres listener inserted ≡ [])
call_postgres_lem_example = call_postgres_lem listener inserted
