-- ===== src/Sync.antt =====
-- realtime/_sync/client.py and channel.py: a client that has the methods of the asynchronous one, and
-- neither state nor behaviour.
use realtime_py.Prelude.{ℕ, String, Bool, Option}
use realtime_py.Prelude.Dict.{Dict}
use realtime_py.Types.{Json}
use realtime_py.World.{ChannelConfig}

pub data SyncResult : Type 0 where
  returns_none not_implemented_error : SyncResult

-- `SyncRealtimeClient.__init__` and `SyncRealtimeChannel.__init__` keep nothing.
pub data SyncRealtimeClient : Type 0 where
  sync_client : SyncRealtimeClient

pub data SyncRealtimeChannel : Type 0 where
  sync_channel : SyncRealtimeChannel

unfoldable pub new_client :
    String → String → Bool → Option (Dict Json) → ℕ → ℕ → ℕ → SyncRealtimeClient
new_client url token auto_reconnect params hb_interval max_retries initial_backoff = sync_client

unfoldable pub new_channel :
    SyncRealtimeClient → String → Option ChannelConfig → SyncRealtimeChannel
new_channel socket topic params = sync_channel

module _ (self : SyncRealtimeClient) where
  unfoldable pub channel : String → Option ChannelConfig → SyncResult
  channel topic params = not_implemented_error

  unfoldable pub get_channels : SyncResult
  get_channels = not_implemented_error

  unfoldable pub remove_channel : SyncRealtimeChannel → SyncResult
  remove_channel channel = not_implemented_error

  unfoldable pub remove_all_channels : SyncResult
  remove_all_channels = not_implemented_error

  -- The body is its docstring.
  unfoldable pub set_auth : Option String → SyncResult
  set_auth token = returns_none
