-- ===== src/Messages/Replies.antt =====
-- Replies: which push they settle, and what an unexpected one does to the loop of `_listen`.
use realtime_py.Prelude.{
  ℕ, String, ◌≡◌, ◌≢◌, false, Option, none, some, List, ◌∷◌, arith, eq_iff, str_eq,
}
use realtime_py.Prelude.Dict.{lookup, erase, IsDict, lookup-erase}
use realtime_py.Types.{ReplyPayload, ServerMessage, reply_message, topic_of}
use realtime_py.World.{World, set_channel, key_error, returns, raises, put_at_self}
use realtime_py.Messages.{pop_waiting, acknowledge, handle_reply, handle_message, dispatch, listen}

-- A message for a topic that no channel has is passed over.
pub dispatch_unknown_topic :
    (message : ServerMessage) (w : World)
    → lookup (topic_of message) w.channels ≡ none
    → dispatch message w ≡ (returns tt, w)
unfolding dispatch
dispatch_unknown_topic message w h = rw (h, dispatch)

-- The channel without the entry of a reference that waits.
abbrev pub settle : ℕ → String → World → World
settle c ref w =
    let ch = w.channel_at c in
    set_channel c (record ch { messages_waiting_for_ack = erase ref ch.messages_waiting_for_ack }) w

module _ (c : ℕ) (ref : String) (payload : ReplyPayload) (w : World) (named : ref ≢ "") where
  not_empty : str_eq ref "" ≡ false
  not_empty = ground (arith, eq_iff ref "")

  -- A reply to a reference that waits triggers its push, with the entry taken off.
  pub handle_reply_waiting :
      (p : ℕ)
      → lookup ref (w.channel_at c).messages_waiting_for_ack ≡ some p
      → handle_reply c (some ref) payload w ≡ acknowledge p payload (settle c ref w)
  unfolding handle_reply pop_waiting
  handle_reply_waiting p h = rw (not_empty, h, pop_waiting)

  handle_reply_unexpected :
      lookup ref (w.channel_at c).messages_waiting_for_ack ≡ none
      → handle_reply c (some ref) payload w ≡ (raises key_error, w)
  unfolding handle_reply pop_waiting
  handle_reply_unexpected h = rw (not_empty, h, pop_waiting)

  -- A reply to a reference that does not wait raises `KeyError` in `_handle_message`, and so ends the
  -- loop of `_listen`: no later message of the connection is handled.
  pub listen_unexpected_reply :
      (topic : String) (later : List (Option ServerMessage))
      → lookup topic w.channels ≡ some c
      → lookup ref (w.channel_at c).messages_waiting_for_ack ≡ none
      → listen (some (reply_message topic (some ref) payload) ∷ later) w ≡ (raises key_error, w)
  unfolding listen dispatch topic_of handle_message
  listen_unexpected_reply topic later known h = rw (known, dispatch, handle_reply_unexpected h)

-- Once a reply has taken its entry off, the same reference waits no more in the channel.
pub settle_once :
    (c : ℕ) (ref : String) (w : World)
    → IsDict (w.channel_at c).messages_waiting_for_ack
    → lookup ref ((settle c ref w).channel_at c).messages_waiting_for_ack ≡ none
settle_once c ref w h = rw put_at_self (
    ground
      (arith, lookup-erase ref ref (w.channel_at c).messages_waiting_for_ack h, eq_iff ref ref))
