-- ===== src/Tests/Clients.antt =====
-- Runs of a client and its channels on an open connection.
use realtime_py.Prelude.{ℕ, ◌+◌, ◌≡◌, ◌↔◌, refl, true, false, none, some, [], ◌∷◌, ◌++◌, get_elem?}
use realtime_py.Prelude.Dict.{lookup}
use realtime_py.Prelude.Decimal.{decimal}
use realtime_py.Types.{
  Message, ChannelStates, all_events, PostgresRowChange, PostgresChangesCallback,
}
use realtime_py.World.{World, returns, skip}
use realtime_py.Channel.{bind_all}
use realtime_py.Channel.Bindings.{Matched, bind_all_lem}
use realtime_py.Socket.{values, dup_channels}
use realtime_py.Subscription.{subscribe}
use realtime_py.Subscription.Joining.{IsJoin, subscribe_joins}
use realtime_py.Client.{set_auth}
use realtime_py.Client.Auth.{auth_messages, set_auth_lem}
use realtime_py.References.{Past-Stable}
use realtime_py.Tests.{room, online}

abbrev joined_world : World
joined_world = record online { channel_at = λ _. record room { state = ChannelStates.joined } }

set_auth_lem_example :
    let (r, w') = set_auth skip (some "t") joined_world in
    (r ≡ returns tt)
    × (w'.access_token ≡ some "t")
    × (w'.wire ≡ [] ++ auth_messages joined_world (some "t") joined_world.ref (values joined_world))
set_auth_lem_example = set_auth_lem skip (some "t") joined_world refl refl

abbrev idle : World
idle = record online {
  channel_at = λ _. record room {
    state = ChannelStates.closed;
    joined_once = false;
    messages_waiting_for_ack = [];
  };
}

idle-alone : dup_channels "realtime:room" idle ≡ []
unfolding dup_channels
idle-alone = refl

subscribe_joins_example :
    let (r, w') = subscribe skip 0 (some 5) idle in
    (r ≡ returns tt)
    × ((w'.channel_at 0).state ≡ ChannelStates.joining)
    × ((m : Message) × IsJoin 0 idle m × (w'.wire ≡ [] ++ m ∷ []))
    × (lookup (decimal (idle.ref + 1)) (w'.channel_at 0).messages_waiting_for_ack ≡ some 0)
subscribe_joins_example =
    subscribe_joins skip 0 (some 5) idle refl refl refl refl idle-alone refl refl

abbrev listener : PostgresChangesCallback
listener = record {
  callback = 1;
  event = all_events;
  table = some "messages";
  schema = some "public";
  filter = none;
  id = none;
}

abbrev binding : PostgresRowChange
binding = record {
  id = 7;
  events = all_events;
  schema_ = some "public";
  table = "messages";
  filter = none;
}

bind_all_lem_example :
    (((bind_all (listener ∷ []) (binding ∷ [])).1 ≡ true) ↔ Matched (listener ∷ []) (binding ∷ []))
    × ((i : ℕ) (callback : PostgresChangesCallback) (server : PostgresRowChange)
        → (bind_all (listener ∷ []) (binding ∷ [])).1 ≡ true
        → get_elem? (listener ∷ []) i ≡ some callback
        → get_elem? (binding ∷ []) i ≡ some server
        → get_elem? (bind_all (listener ∷ []) (binding ∷ [])).0 i
          ≡ some (record callback { id = some server.id }))
bind_all_lem_example = bind_all_lem (listener ∷ []) (binding ∷ [])
