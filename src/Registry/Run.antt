-- ===== src/Registry/Run.antt =====
-- The channels of a client from `__init__` of realtime/_async/client.py on.
use realtime_py.Prelude.{ℕ, ◌≡◌, refl, ◌∙◌, sym, String, Bool, Option, some, List}
use realtime_py.Prelude.Dict.{lookup}
use realtime_py.Types.{ServerMessage, topic_of}
use realtime_py.World.{World, SendOutcome}
use realtime_py.Messages.{handle_message, dispatch}
use realtime_py.Client.{init}
use realtime_py.References.{Past}
use realtime_py.Registry.{Registered, Registered-Stable}
use realtime_py.Stable.Run.{Reachable, Reachable-keeps}

pub Registered-dispatch :
    {w : World}
    → Registered w
    → (message : ServerMessage) (c : ℕ) → lookup (topic_of message) w.channels ≡ some c
    → (dispatch message w ≡ handle_message c message w)
      × ((w.channel_at c).topic ≡ topic_of message)
      × ((topic : String) → lookup topic w.channels ≡ some c → topic ≡ topic_of message)
unfolding dispatch
Registered-dispatch h message c e =
    let own = (h.known (topic_of message) c e).1 in
    (rw (dispatch, e) refl, own, λ topic e'. sym (h.known topic c e').1 ∙ own)

module _ (token : Option String) (auto_reconnect : Bool) (hb_interval retries backoff timeout : ℕ)
    (sends : List SendOutcome) (dials : List Bool) where
  abbrev pub start : World
  start = init token auto_reconnect hb_interval retries backoff timeout sends dials

  pub init-Registered : Registered start
  unfolding init lookup
  init-Registered = record { topics = tt; known = λ topic c e. cc; references = λ c. tt }

  pub init-Past : Past start
  unfolding init lookup
  init-Past = record { past = λ c ref wait. cc }

  -- After any of the calls of `Action` on a new client, a message of the server whose topic the client
  -- has is handled by a channel with this topic, and by no other: the channels of two topics differ.
  pub dispatch_reaches_topic :
      {fuel : ℕ} {w : World}
      → Reachable fuel start w
      → (message : ServerMessage) (c : ℕ) → lookup (topic_of message) w.channels ≡ some c
      → (dispatch message w ≡ handle_message c message w)
        × ((w.channel_at c).topic ≡ topic_of message)
        × ((topic : String) → lookup topic w.channels ≡ some c → topic ≡ topic_of message)
  dispatch_reaches_topic r message c e =
      Registered-dispatch (Reachable-keeps Registered init-Registered r) message c e
