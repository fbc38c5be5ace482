-- ===== src/Client/Created.antt =====
-- The channel that `channel` of realtime/_async/client.py makes.
use Prim.Native.String.{◌++◌ as append_text}
use realtime_py.Prelude.{◌≡◌, refl, String, false, Option, []}
use realtime_py.Types.{ChannelStates}
use realtime_py.Timer.{new_timer}
use realtime_py.Presence
use realtime_py.World.{World, Channel, ChannelConfig, returns, put_at_self}
use realtime_py.Push.{new_push, receive}
use realtime_py.Subscription.{init_channel, params_or_default}
use realtime_py.Client.{channel}
use realtime_py.Stable.{with_channel}

-- The new channel, for the number of its join push.
abbrev pub new_channel : String → Option ChannelConfig → World → Channel
new_channel name params w = record {
  topic = append_text "realtime:" name;
  params = params_or_default params;
  joined_once = false;
  presence = Presence.init;
  state = ChannelStates.closed;
  push_buffer = [];
  timeout = w.timeout;
  join_push = w.next_push;
  messages_waiting_for_ack = [];
  broadcast_callbacks = [];
  system_callbacks = [];
  postgres_changes_callbacks = [];
  rejoin_timer = new_timer;
}

-- `channel` returns the number of the channel, and changes the store as `with_channel` does, but for
-- the join push.
pub channel_lem :
    (name : String) (params : Option ChannelConfig) (w : World)
    → let (r, w') = channel name params w in
      let v = with_channel (new_channel name params w) w in
      (r ≡ returns w.next_channel)
      × (w'.channel_at ≡ v.channel_at)
      × (w'.channels ≡ v.channels)
      × (w'.next_channel ≡ v.next_channel)
      × (w'.ref ≡ w.ref)
unfolding channel init_channel new_push receive
channel_lem name params w =
    rw (channel, init_channel, new_push, receive, put_at_self, receive, put_at_self, put_at_self)
      (refl, refl, refl, refl, refl)
