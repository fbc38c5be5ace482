-- ===== src/Exceptions.antt =====
-- realtime/exceptions.py: the texts of the exceptions.
use Prim.Native.String.{◌++◌ as append_text}
use realtime_py.Prelude.{String, Option, none, some, str_eq, if◌then◌else◌}

-- `NotConnectedError.__str__`
unfoldable pub not_connected_text : String → String
not_connected_text func_name =
    append_text
      "A WS connection has not been established. Ensure you call AsyncRealtimeClient.connect() before calling AsyncRealtimeClient."
      (append_text func_name "()")

-- `AuthorizationError.__init__`; an empty message is none.
unfoldable pub authorization_message : Option String → String
authorization_message none = "Authorization failed for private channel"
authorization_message (some message) =
    if str_eq message "" then "Authorization failed for private channel" else message
