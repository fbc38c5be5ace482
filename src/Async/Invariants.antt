-- ===== src/Async/Invariants.antt =====
-- The invariants of a client of realtime/_async under every interleaving of its tasks.
use realtime_py.Prelude.{ℕ, ◌≡◌, String, Bool, Option, some, List, false}
use realtime_py.Prelude.Dict.{lookup, contains}
use realtime_py.Types.{ServerMessage, topic_of}
use realtime_py.World.{World, SendOutcome, returns}
use realtime_py.Socket.{make_ref}
use realtime_py.Messages.{handle_message, dispatch}
use realtime_py.References.{Past, Past-Stable}
use realtime_py.References.Run.{Past-make_ref}
use realtime_py.Registry.{Registered, Registered-Stable}
use realtime_py.Registry.Run.{start, init-Registered, init-Past, Registered-dispatch}
use realtime_py.Async.Interleaved.{Loop, Interleaving, Interleaving-keeps}

module _ (token : Option String) (auto_reconnect : Bool) (hb_interval retries backoff timeout : ℕ)
    (sends : List SendOutcome) (dials : List Bool) where
  -- On a new client, whatever calls of `Action` its tasks make, in whatever order these run between
  -- their awaits, and wherever one is cancelled: the next reference that the client makes is one under
  -- which no push waits in any channel.
  pub interleaved_refs_are_fresh :
      {fuel : ℕ} {l : Loop} {w : World} {ref : String}
      → Interleaving fuel
          (start token auto_reconnect hb_interval retries backoff timeout sends dials)
          l
      → make_ref l.store ≡ (returns ref, w)
      → (c : ℕ) → contains ref (l.store.channel_at c).messages_waiting_for_ack ≡ false
  interleaved_refs_are_fresh r made =
      Past-make_ref
        (Interleaving-keeps Past
          (init-Past token auto_reconnect hb_interval retries backoff timeout sends dials) r)
        made

  -- On a new client, whatever calls of `Action` its tasks make, in whatever order these run between
  -- their awaits, and wherever one is cancelled: a message of the server whose topic the client has is
  -- handled by a channel with this topic, and by no other, as the channels of two topics differ.
  pub interleaved_messages_reach_topic :
      {fuel : ℕ} {l : Loop}
      → Interleaving fuel
          (start token auto_reconnect hb_interval retries backoff timeout sends dials)
          l
      → (message : ServerMessage) (c : ℕ) → lookup (topic_of message) l.store.channels ≡ some c
      → (dispatch message l.store ≡ handle_message c message l.store)
        × ((l.store.channel_at c).topic ≡ topic_of message)
        × ((topic : String) → lookup topic l.store.channels ≡ some c → topic ≡ topic_of message)
  interleaved_messages_reach_topic r message c e =
      Registered-dispatch
        (Interleaving-keeps Registered
          (init-Registered token auto_reconnect hb_interval retries backoff timeout sends dials) r)
        message c e
