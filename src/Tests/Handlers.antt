-- ===== src/Tests/Handlers.antt =====
-- Runs of messages that are sent and handled.
use realtime_py.Prelude.{
  String, ◌≡◌, refl, Option, none, some, List, [], ◌∷◌, ◌++◌, map, elem, option_eq, string_eq,
}
use realtime_py.Prelude.Dict.{Dict, lookup, get_or}
use realtime_py.Prelude.Decimal.{decimal}
use realtime_py.Types.{
  Json, ReplyPayload, RawPresenceState, presence_state_message, BroadcastPayload,
}
use realtime_py.Timer.{reset}
use realtime_py.Presence.{Call, call_sync}
use realtime_py.Presence.Synced.{IsState}
use realtime_py.Presence.Transform.{presence_ref}
use realtime_py.Presence.Transform.Events.{IsRawState, meta_ref}
use realtime_py.World.{World, presence_called, returns, skip}
use realtime_py.Channel.{on_join_ok}
use realtime_py.Channel.States.{send_task}
use realtime_py.Push.{timeout_elapsed}
use realtime_py.Socket.{push_send, resend}
use realtime_py.Socket.Resending.{resend-tasks}
use realtime_py.Socket.Expired.{push_send-timeout_elapsed}
use realtime_py.Subscription.{push}
use realtime_py.Subscription.Pushing.{push-on_join_ok}
use realtime_py.Messages.{acknowledge, handle_reply, handle_broadcast, dispatch}
use realtime_py.Messages.Replies.{settle}
use realtime_py.Socket.Taken.{message_of}
use realtime_py.Messages.RoundTrip.{push_send-handle_reply}
use realtime_py.Messages.Calls.{dispatch_presence_state, broadcast_calls, handle_broadcast_lem}
use realtime_py.Tests.{join_push, room, offline, online}

push_send-handle_reply_example :
    let (r, w') = push_send skip 1 online in
    (r ≡ returns tt)
    × (w'.wire ≡ [] ++ message_of 1 online ∷ [])
    × (handle_reply 0 (message_of 1 online).ref (ReplyPayload.success none) w'
        ≡ acknowledge 1 (ReplyPayload.success none) (settle 0 (decimal 2) w'))
push_send-handle_reply_example =
    push_send-handle_reply skip 1 (ReplyPayload.success none) online refl refl refl

push-on_join_ok_example :
    let (r, v) = push skip 0 "shout" [] none offline in
    let v' = (on_join_ok 0 v).1 in
    (r ≡ returns 2)
    × (v.wire ≡ [])
    × (v'.tasks
        ≡ (reset (v.channel_at 0).rejoin_timer v.tasks).1 ++ map send_task ((1 ∷ []) ++ 2 ∷ []))
push-on_join_ok_example = push-on_join_ok skip 0 "shout" [] none offline refl refl

push_send-timeout_elapsed_example :
    let w' = (timeout_elapsed 0 online).1 in push_send skip 0 w' ≡ (returns tt, w')
push_send-timeout_elapsed_example = push_send-timeout_elapsed skip 0 online

abbrev arrivals : RawPresenceState
arrivals = ("ann", (("phx_ref", "7") ∷ []) ∷ []) ∷ []

arrivals-IsRawState : IsRawState arrivals
unfolding lookup
arrivals-IsRawState = record {
  payload = record { dict = (refl, tt); metas = (((refl, tt), tt), tt) };
  has_refs = ((("7", refl), tt), tt);
  filled = (refl, tt);
}

online-known : lookup "realtime:room" online.channels ≡ some 0
unfolding lookup
online-known = refl

online-IsState : IsState (online.channel_at 0).presence.state
online-IsState = record { dict = tt; filled = tt }

dispatch_presence_state_example :
    let (r, w') = dispatch (presence_state_message "realtime:room" arrivals) online in
    let presence = (w'.channel_at 0).presence in
    (r ≡ returns tt)
    × ((k : String) (ref : Option Json)
        → elem ref (map presence_ref (get_or k [] presence.state))
          ≡ elem ref (map meta_ref (get_or k [] arrivals)))
    × (calls : List (Call (Dict Json))) × (w'.calls
        ≡ [] ++ map presence_called (calls ++ call_sync presence.on_sync_callback))
dispatch_presence_state_example =
    dispatch_presence_state 0 "realtime:room" arrivals online online-known online-IsState
      arrivals-IsRawState

abbrev shout : BroadcastPayload
shout = record { event = "shout"; payload = "{}" }

abbrev loud : World
loud = record online {
  channel_at = λ _. record room {
    broadcast_callbacks =
        record { callback = 6; event = "shout" } ∷ record { callback = 9; event = "whisper" } ∷ [];
  };
}

handle_broadcast_lem_example : handle_broadcast 0 shout loud ≡ (
  returns tt,
  record loud { calls = [] ++ broadcast_calls (loud.channel_at 0).broadcast_callbacks shout },
)
handle_broadcast_lem_example = handle_broadcast_lem 0 shout loud

-- The join push has a timeout that was started as task 0.
abbrev timed : World
timed = record online { push_at = λ _. record join_push { timeout_task = some 0 } }

resend-tasks_example : let (r, w') = resend skip 0 timed in (r ≡ returns tt) × (w'.tasks ≡ [])
resend-tasks_example = resend-tasks skip 0 0 timed refl refl refl
