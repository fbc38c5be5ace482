-- ===== src/Messages.antt =====
-- realtime/_async/channel.py, `_handle_message`, and the loop of `_listen` in client.py.
pub mod Replies
pub mod RoundTrip
pub mod Calls
use realtime_py.Prelude.{
  ℕ, String, Bool, true, false, Option, none, some, List, [], ◌∷◌, ◌++◌, map, string_eq, str_eq,
  if◌then◌else◌,
}
use realtime_py.Prelude.Dict.{Dict, lookup, erase}
use realtime_py.Types.{
  Json, RealtimeAcknowledgementStatus, ReplyPayload, success, failure, SystemPayload,
  RawPresenceState, BroadcastPayload, PostgresChangesPayload, call_broadcast, call_postgres,
  ServerMessage, system_message, reply_message, heartbeat_message, broadcast_message,
  presence_state_message, presence_diff_message, postgres_changes_message, channel_error_message,
  channel_close_message, topic_of,
}
use realtime_py.Presence.{AsyncRealtimePresence, Call}
use realtime_py.Presence.Transform.{on_state_event, on_diff_event}
use realtime_py.World.{
  World, Channel, Response, changes, details, UserCall, system_called, broadcast_called,
  postgres_called, presence_called, set_channel, Error, key_error, M, ⊤, Outcome, returns, raises,
  pure, raise, gets, modify, continue, ◌>>=◌, ◌>>◌, skip, for_each, modify_channel,
}
use realtime_py.Channel.{on_close, on_error, call_user}
use realtime_py.Push.{trigger}

-- `self.messages_waiting_for_ack.pop(ref)`
unfoldable pub pop_waiting : ℕ → String → M ℕ
pop_waiting c ref w =
    let ch = w.channel_at c in
    elim (lookup ref ch.messages_waiting_for_ack) [
      | none ↦ (raises key_error, w)
      | some p ↦ (
        returns p,
        set_channel c
            (record ch { messages_waiting_for_ack = erase ref ch.messages_waiting_for_ack }) w,
      )
    ]

unfoldable pub acknowledge : ℕ → ReplyPayload → M ⊤
acknowledge p (success xs) = trigger p RealtimeAcknowledgementStatus.ok (changes xs)
acknowledge p (failure body) = trigger p RealtimeAcknowledgementStatus.error (details body)

-- `if message.ref and ...`: an empty reference is false
unfoldable pub handle_reply : ℕ → Option String → ReplyPayload → M ⊤
handle_reply c none payload = skip
handle_reply c (some ref) payload =
    if str_eq ref "" then skip else (pop_waiting c ref >>= λ p. acknowledge p payload)

unfoldable pub handle_system : ℕ → SystemPayload → M ⊤
handle_system c (SystemPayload.success body) = do
  callbacks ← gets (λ w. (w.channel_at c).system_callbacks)
  for_each (λ f. call_user (system_called f body)) callbacks
handle_system c (SystemPayload.error body) = on_error c

-- The presence object after an event, and its calls; a malformed meta raises `KeyError`.
unfoldable pub set_presence :
    ℕ → Option (AsyncRealtimePresence (Dict Json) × List (Call (Dict Json))) → M ⊤
set_presence c none = raise key_error
set_presence c (some (presence, calls)) =
    modify_channel c (λ ch. record ch { presence = presence })
    >> for_each (λ call. call_user (presence_called call)) calls

unfoldable pub handle_broadcast : ℕ → BroadcastPayload → M ⊤
handle_broadcast c payload = do
  callbacks ← gets (λ w. (w.channel_at c).broadcast_callbacks)
  for_each
      (λ callback.
        for_each (λ call. call_user (broadcast_called call.0 call.1))
          (call_broadcast callback payload))
      callbacks

unfoldable pub handle_postgres : ℕ → PostgresChangesPayload → M ⊤
handle_postgres c payload = do
  callbacks ← gets (λ w. (w.channel_at c).postgres_changes_callbacks)
  for_each
      (λ callback.
        for_each (λ call. call_user (postgres_called call.0 call.1))
          (call_postgres callback payload))
      callbacks

-- `_handle_message`
unfoldable pub handle_message : ℕ → ServerMessage → M ⊤
handle_message c (system_message topic payload) = handle_system c payload
handle_message c (reply_message topic ref payload) = handle_reply c ref payload
handle_message c (broadcast_message topic payload) = handle_broadcast c payload
handle_message c (presence_state_message topic payload) = do
  presence ← gets (λ w. (w.channel_at c).presence)
  set_presence c (on_state_event presence payload)
handle_message c (presence_diff_message topic joins leaves) = do
  presence ← gets (λ w. (w.channel_at c).presence)
  set_presence c (on_diff_event presence (record { joins = joins; leaves = leaves }))
handle_message c (postgres_changes_message topic payload) = handle_postgres c payload
handle_message c (channel_error_message topic body) = on_error c
handle_message c (channel_close_message topic body) = on_close c
handle_message c heartbeat_message = skip

-- One round of the loop of `_listen`, on a message that pydantic accepted.
unfoldable pub dispatch : ServerMessage → M ⊤
dispatch message w = elim (lookup (topic_of message) w.channels) [
  | none ↦ (returns tt, w)
  | some c ↦ handle_message c message w
]

-- The loop on the messages of one connection; `none` is text that pydantic rejects, which is skipped.
-- What a handler raises ends the loop.
unfoldable pub listen : List (Option ServerMessage) → M ⊤
listen [] = skip
listen (none ∷ messages) = listen messages
listen (some message ∷ messages) = let rest = listen messages in dispatch message >> rest
