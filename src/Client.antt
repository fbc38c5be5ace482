-- ===== src/Client.antt =====
-- realtime/_async/client.py: the methods of the client.
pub mod Created
pub mod Auth
pub mod Leaving
pub mod Removing
pub mod Returning
use Prim.Native.String.{◌++◌ as append_text}
use realtime_py.Prelude.{
  ℕ, zero, suc, if◌then◌else◌, ◌+◌, max, String, Bool, false, ◌&&◌, Option, none, List, [], ◌∷◌,
  ◌++◌, is_empty,
}
use realtime_py.Prelude.Dict.{contains, get_or, insert}
use realtime_py.Types.{ChannelStates, token, Message, ServerMessage, phoenix_channel}
use realtime_py.Types.ChannelEvents
use realtime_py.Timer.{new_timer, cancel_some}
use realtime_py.Presence
use realtime_py.Push.{fresh_push}
use realtime_py.World.{
  World, Channel, SendOutcome, ChannelConfig, not_connected, raise, M, ⊤, pure, gets, modify, ◌>>=◌,
  ◌>>◌, skip, when, for_each,
}
use realtime_py.Channel.{in_state}
use realtime_py.Messages.{listen}
use realtime_py.Socket.{values, send, unsubscribe, on_connect_error}
use realtime_py.Subscription.{init_channel, push}

-- The place of a channel or a push that is not made yet.
abbrev blank_channel : Channel
blank_channel = record {
  topic = "";
  params = record { broadcast = none; presence = none; private = false };
  joined_once = false;
  presence = Presence.init;
  state = ChannelStates.closed;
  push_buffer = [];
  timeout = 0;
  join_push = 0;
  messages_waiting_for_ack = [];
  broadcast_callbacks = [];
  system_callbacks = [];
  postgres_changes_callbacks = [];
  rejoin_timer = new_timer;
}

-- `__init__`, past the URLs and `params`, which only `endpoint_url` reads, for a socket that answers as
-- given; the times of the heartbeat and of `connect` are in milliseconds.
unfoldable pub init :
    (access_token : Option String) (auto_reconnect : Bool)
    (hb_interval max_retries initial_backoff timeout : ℕ)
    → List SendOutcome
    → List Bool
    → World
init access_token auto_reconnect hb_interval max_retries initial_backoff timeout sends dials =
    record {
      is_connected = false;
      ref = 0;
      auto_reconnect = auto_reconnect;
      max_retries = max_retries;
      initial_backoff = initial_backoff;
      timeout = timeout;
      hb_interval = hb_interval;
      access_token = access_token;
      channels = [];
      send_buffer = [];
      listen_task = none;
      heartbeat_task = none;
      next_channel = 0;
      channel_at = λ _. blank_channel;
      next_push = 0;
      push_at = λ _. fresh_push 0 "" [] 0;
      tasks = [];
      wire = [];
      calls = [];
      send_outcomes = sends;
      dial_outcomes = dials;
      slept = [];
    }

-- `channel`: the number of the new channel
unfoldable pub channel : String → Option ChannelConfig → M ℕ
channel name params w =
    let topic = append_text "realtime:" name in
    let c = w.next_channel in
    (do
      init_channel c topic params
      modify (λ v. record v { channels = insert topic c v.channels })
      pure c)
      (record w { next_channel = w.next_channel + 1 })

unfoldable pub get_channels : M (List ℕ)
get_channels = gets values

-- `close`, once the connection has closed
unfoldable pub close : M ⊤
close = modify (λ w. record w {
  is_connected = false;
  tasks = cancel_some w.heartbeat_task (cancel_some w.listen_task w.tasks);
  listen_task = none;
  heartbeat_task = none;
})

abbrev pub heartbeat_message : Message
heartbeat_message = record {
  event = ChannelEvents.heartbeat;
  payload = [];
  topic = phoenix_channel;
  ref = none;
}

module _ (closed : M ⊤) where
  -- One round of the loop of `_heartbeat`; times are in milliseconds.
  unfoldable pub heartbeat_round : M ⊤
  heartbeat_round =
      send closed heartbeat_message
      >> modify (λ w. record w { slept = w.slept ++ (max w.hb_interval 15000) ∷ [] })

  unfoldable pub remove_channel : ℕ → M ⊤
  remove_channel c = do
    w ← gets (λ w. w)
    let topic = (w.channel_at c).topic
    when (contains topic w.channels) (unsubscribe closed (get_or topic c w.channels))
    empty ← gets (λ w. is_empty w.channels)
    when empty close

  -- Without another task between the sends; Async.Methods has it with its awaits.
  unfoldable pub remove_all_channels : M ⊤
  remove_all_channels = do channels ← gets values; for_each (unsubscribe closed) channels; close

  unfoldable pub set_auth : Option String → M ⊤
  set_auth new_token = do
    modify (λ w. record w { access_token = new_token })
    channels ← gets values
    for_each
        (λ c.
          gets (λ w. let ch = w.channel_at c in ch.joined_once && in_state ChannelStates.joined ch)
          >>= λ joined. when joined (
              push closed c ChannelEvents.access_token (("access_token", token new_token) ∷ []) none
              >> skip))
        channels

  -- `_listen`, on the messages of a connection that ends with `ConnectionClosedError`, or else well.
  unfoldable pub listen_connection : List (Option ServerMessage) → Bool → M ⊤
  listen_connection messages closed_error w =
      if w.is_connected
      then (listen messages >> when closed_error (on_connect_error closed)) w
      else raise (not_connected "_listen") w

  -- `_heartbeat`, for so many rounds before its task is cancelled.
  unfoldable pub heartbeat_rounds : ℕ → M ⊤
  heartbeat_rounds zero = skip
  heartbeat_rounds (suc rounds) =
      let rest = heartbeat_rounds rounds in
      gets (λ w. w.is_connected) >>= λ connected. when connected (heartbeat_round >> rest)

  unfoldable pub heartbeat : ℕ → M ⊤
  heartbeat rounds w =
      if w.is_connected then heartbeat_rounds rounds w else raise (not_connected "_heartbeat") w
