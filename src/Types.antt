-- ===== src/Types.antt =====
-- realtime/types.py and realtime/message.py: the enums, the callbacks and the messages. A JSON
-- value that the program passes on unread is its text, a user callback is a number.
pub mod Callbacks
pub mod ChannelEvents
use Prim.Native.Nat.{compare, Ordering}
use realtime_py.Prelude.{
  ℕ, String, Bool, true, false, not, ◌&&◌, ◌||◌, Option, none, some, List, [], ◌∷◌, ◌++◌, ◌==◌,
  str_eq, if◌then◌else◌,
}
use realtime_py.Prelude.Dict.{Dict}

abbrev pub Json : Type 0
Json = String

pub data ChannelStates : Type 0 where
  joined closed errored joining leaving : ChannelStates

-- `self.state == ...`
abbrev pub state_eq : ChannelStates → ChannelStates → Bool
state_eq ChannelStates.joined ChannelStates.joined = true
state_eq ChannelStates.closed ChannelStates.closed = true
state_eq ChannelStates.errored ChannelStates.errored = true
state_eq ChannelStates.joining ChannelStates.joining = true
state_eq ChannelStates.leaving ChannelStates.leaving = true
state_eq _ _ = false

pub data RealtimeSubscribeStates : Type 0 where
  subscribed timed_out closed channel_error : RealtimeSubscribeStates

pub data RealtimeAcknowledgementStatus : Type 0 where
  ok error timeout : RealtimeAcknowledgementStatus

pub data RealtimePostgresChangesListenEvent : Type 0 where
  all_events insert_event update_event delete_event : RealtimePostgresChangesListenEvent

abbrev pub event_eq : RealtimePostgresChangesListenEvent → RealtimePostgresChangesListenEvent → Bool
event_eq all_events all_events = true
event_eq insert_event insert_event = true
event_eq update_event update_event = true
event_eq delete_event delete_event = true
event_eq _ _ = false

abbrev pub event_value : RealtimePostgresChangesListenEvent → String
event_value all_events = "*"
event_value insert_event = "INSERT"
event_value update_event = "UPDATE"
event_value delete_event = "DELETE"

abbrev pub default_timeout : ℕ
default_timeout = 10

abbrev pub phoenix_channel : String
phoenix_channel = "phoenix"

-- `text1 == text2` between optional texts
abbrev pub opt_str_eq : Option String → Option String → Bool
opt_str_eq none none = true
opt_str_eq none (some t) = false
opt_str_eq (some s) none = false
opt_str_eq (some s) (some t) = str_eq s t

-- A payload of the database: its event type, the ids of the bindings that it is for, its text.
pub record PostgresChangesPayload : Type 0 where
  pub type_ : RealtimePostgresChangesListenEvent
  pub ids : List ℕ
  pub body : Json

pub record BroadcastPayload : Type 0 where
  pub event : String
  pub payload : Json

pub record BroadcastCallback : Type 0 where
  pub callback : ℕ
  pub event : String

-- `BroadcastCallback.__call__`: the call that it makes, if any
unfoldable pub call_broadcast : BroadcastCallback → BroadcastPayload → List (ℕ × BroadcastPayload)
call_broadcast self payload =
    if str_eq self.event payload.event then (self.callback, payload) ∷ [] else []

pub record PostgresChangesCallback : Type 0 where
  pub callback : ℕ
  pub event : RealtimePostgresChangesListenEvent
  pub table : Option String
  pub schema : Option String
  pub filter : Option String
  pub id : Option ℕ

-- `i in ids`
unfoldable pub contains_id : ℕ → List ℕ → Bool
contains_id i [] = false
contains_id i (j ∷ ids) = (j == i) || contains_id i ids

-- `self.id and self.id in payload["ids"]`: an id of 0 is false
unfoldable pub id_matches : Option ℕ → List ℕ → Bool
id_matches none ids = false
id_matches (some i) ids = not (i == 0) && contains_id i ids

-- `PostgresChangesCallback.__call__`
unfoldable pub call_postgres :
    PostgresChangesCallback → PostgresChangesPayload → List (ℕ × PostgresChangesPayload)
call_postgres self payload =
    let event_matches = event_eq self.event payload.type_ || event_eq self.event all_events in
    if id_matches self.id payload.ids && event_matches then (self.callback, payload) ∷ [] else []

-- `if self.schema: binding["schema"] = self.schema`: an empty text is false
unfoldable pub optional_entry : String → Option String → Dict (Option String)
optional_entry key none = []
optional_entry key (some s) = if str_eq s "" then [] else (key, some s) ∷ []

unfoldable pub binding_filter : PostgresChangesCallback → Dict (Option String)
binding_filter self =
    (("events", some (event_value self.event)) ∷ ("table", self.table) ∷ [])
    ++ (optional_entry "schema" self.schema ++ optional_entry "filter" self.filter)

-- The binding that the server reports for a listener. Ids are not negative.
pub record PostgresRowChange : Type 0 where
  pub id : ℕ
  pub events : RealtimePostgresChangesListenEvent
  pub table : String
  pub schema_ : Option String
  pub filter : Option String

-- `RealtimeChannelConfig`, with the filters that a join adds
pub record JoinConfig : Type 0 where
  pub broadcast : Option Json
  pub presence : Option Json
  pub private : Bool
  pub postgres_changes : Option (List (Dict (Option String)))

-- A value of a payload: JSON that is passed on, an optional text, or the config of a join, which
-- `join` wraps in a second dict.
pub data Value : Type 0 where
  json : Json → Value
  token : Option String → Value
  config wrapped_config : JoinConfig → Value

abbrev pub Payload : Type 0
Payload = Dict Value

pub record Message : Type 0 where
  pub event : String
  pub payload : Payload
  pub topic : String
  pub ref : Option String

-- `ReplyMessage.payload`
pub data ReplyPayload : Type 0 where
  success : Option (List PostgresRowChange) → ReplyPayload
  failure : Json → ReplyPayload

-- `SystemMessage.payload`
pub data SystemPayload : Type 0 where
  success error : Json → SystemPayload

-- A raw presence state, key by key the metas of each entry.
abbrev pub RawPresenceState : Type 0
RawPresenceState = Dict (List (Dict Json))

-- `ServerMessage`, past its validation by pydantic: each with its topic.
pub data ServerMessage : Type 0 where
  system_message : String → SystemPayload → ServerMessage
  reply_message : String → Option String → ReplyPayload → ServerMessage
  heartbeat_message : ServerMessage
  broadcast_message : String → BroadcastPayload → ServerMessage
  presence_state_message : String → RawPresenceState → ServerMessage
  presence_diff_message : String → RawPresenceState → RawPresenceState → ServerMessage
  postgres_changes_message : String → PostgresChangesPayload → ServerMessage
  channel_error_message : String → Json → ServerMessage
  channel_close_message : String → Json → ServerMessage

unfoldable pub topic_of : ServerMessage → String
topic_of (system_message topic _) = topic
topic_of (reply_message topic _ _) = topic
topic_of heartbeat_message = phoenix_channel
topic_of (broadcast_message topic _) = topic
topic_of (presence_state_message topic _) = topic
topic_of (presence_diff_message topic _ _) = topic
topic_of (postgres_changes_message topic _) = topic
topic_of (channel_error_message topic _) = topic
topic_of (channel_close_message topic _) = topic
