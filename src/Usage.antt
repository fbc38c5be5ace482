-- ===== src/Usage.antt =====
-- The example usage.py. The functions that it gives to the client only print; they are numbered in the
-- order of the text.
use realtime_py.Prelude.{true, none, some, List, Bool}
use realtime_py.Types.{all_events, insert_event, update_event, default_timeout}
use realtime_py.World.{World, SendOutcome, M, ⊤, ◌>>=◌, ◌>>◌}
use realtime_py.Channel.{on_postgres_changes}
use realtime_py.Client
use realtime_py.Async
use realtime_py.Async.{Co, lift}
use realtime_py.Async.Calls.{on_closed}
use realtime_py.Async.Methods.{subscribe}

-- The client of `main`, for a socket that answers as given.
abbrev pub usage_client : List SendOutcome → List Bool → World
usage_client sends dials =
    Client.init (some "1234567890") true 25000 5 1000 default_timeout sends dials

unfoldable pub main : Co ⊤
main =
    Async.◌>>=◌ (lift (Client.channel "test-channel" none))
      (λ c. subscribe (on_closed 1) c (some 0))

-- The last call of `test` makes a coroutine of `subscribe`, which nothing awaits: it does nothing.
unfoldable pub test : M ⊤
test = do
  c ← Client.channel "db-changes" none
  on_postgres_changes c all_events 1 none (some "public") none
  on_postgres_changes c insert_event 2 (some "messages") (some "public") none
  on_postgres_changes c update_event 3 (some "users") (some "public") (some "username=eq.Realtime")
