-- ===== src/Tests.antt =====
-- Runs of the model on small inputs: the data that they share.
mod Presences
mod Tasks
mod Connections
mod Pushes
mod Handlers
mod Urls
mod Clients
mod Leaves
mod Loops
mod Examples
use realtime_py.Prelude.{ℕ, String, Bool, true, false, Option, none, some, List, [], ◌∷◌}
use realtime_py.Types.{ChannelStates}
use realtime_py.Timer.{Timer}
use realtime_py.Presence.{AsyncRealtimePresence}
use realtime_py.World.{
  World, Channel, Push, ChannelConfig, Hook, join_ok, join_timeout, subscribe_ok, subscribe_timeout,
}

-- A channel that joins with push 0.
abbrev pub room : Channel
room = record {
  topic = "realtime:room";
  params = record { broadcast = none; presence = none; private = false };
  joined_once = true;
  presence = record {
    state = [];
    on_join_callback = none;
    on_leave_callback = none;
    on_sync_callback = none;
  };
  state = ChannelStates.joining;
  push_buffer = 1 ∷ [];
  timeout = 10;
  join_push = 0;
  messages_waiting_for_ack = ("1", 0) ∷ [];
  broadcast_callbacks = [];
  system_callbacks = [];
  postgres_changes_callbacks = [];
  rejoin_timer = record { timer = none; tries = 0 };
}

-- The join push of a subscription with callback 5.
abbrev pub join_push : Push
join_push = record {
  channel = 0;
  event = "phx_join";
  payload = [];
  timeout = 10;
  ref = some "1";
  received_resp = none;
  sent = true;
  timeout_task = none;
  ok_callbacks = join_ok 0 ∷ subscribe_ok 0 (some 5) ∷ [];
  error_callbacks = [];
  timeout_callbacks = join_timeout 0 ∷ subscribe_timeout (some 5) ∷ [];
}

-- A client without a connection, and with no dial or answer of the socket foreseen.
abbrev pub offline : World
offline = record {
  is_connected = false;
  ref = 1;
  auto_reconnect = true;
  max_retries = 3;
  initial_backoff = 1000;
  timeout = 10;
  hb_interval = 25000;
  access_token = none;
  channels = ("realtime:room", 0) ∷ [];
  send_buffer = [];
  listen_task = none;
  heartbeat_task = none;
  next_channel = 1;
  channel_at = λ _. room;
  next_push = 2;
  push_at = λ _. join_push;
  tasks = [];
  wire = [];
  calls = [];
  send_outcomes = [];
  dial_outcomes = [];
  slept = [];
}

abbrev pub online : World
online = record offline { is_connected = true }
