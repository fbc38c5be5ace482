-- ===== src/Types/ChannelEvents.antt =====
-- `ChannelEvents` of realtime/types.py: the events that the program sends.
use realtime_py.Prelude.{String}

abbrev pub join : String
join = "phx_join"

abbrev pub leave : String
leave = "phx_leave"

abbrev pub heartbeat : String
heartbeat = "heartbeat"

abbrev pub access_token : String
access_token = "access_token"

abbrev pub broadcast : String
broadcast = "broadcast"

abbrev pub presence : String
presence = "presence"
