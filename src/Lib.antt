-- ===== src/Lib.antt =====
-- The verification library of realtime-py, a client of the Supabase Realtime servers. Paths are from the
-- repository's root.
--
-- The program. `AsyncRealtimeClient` (realtime/_async/client.py) holds one websocket, a dict of channels
-- and two tasks that listen and send heartbeats. An `AsyncRealtimeChannel` (channel.py) joins a topic
-- with an `AsyncPush` (push.py), rejoins by an `AsyncTimer` (timer.py), keeps the presence state of the
-- topic (presence.py), and calls the user's functions on the server's messages (types.py, message.py).
-- All this runs as tasks of one event loop.
--
-- The model.
--   Prelude        tests on numbers and texts, dicts as association lists, decimal numerals
--   Types          types.py and message.py: enums, callbacks, messages past their validation
--   Timer          timer.py, with the tasks of asyncio as a table of jobs and their states
--   Presence       presence.py; Presence.Transform is `_transform_state` and the event handlers
--   World          the objects by number in one store, and a method as a function from the store to an
--                  outcome and a store: what was written before a raise stays written
--   Channel        channel.py, what a channel does without sending; `run_hook` runs the functions that
--                  the program gives to `AsyncPush.receive`
--   Push           push.py without `send`
--   Socket         `send` of push.py, and the part of client.py and channel.py that sends, connects,
--                  leaves and rejoins
--   Subscription   channel.py: the constructor, `subscribe`, `push`, `join` and what calls them
--   Messages       `_handle_message` of channel.py and the loop of `_listen`
--   Client         client.py: the constructor, `channel`, `close`, `_listen`, `_heartbeat`, the removals,
--                  `set_auth`
--   Stable         what an invariant of the store has to stand, as an interface, with its lemmas on the
--                  calls; `Stable.Run` has the calls in any order
--   References     an instance: the references under which pushes wait
--   Registry       another instance: the dicts of channels and of waiting pushes
--   Async          the methods of Socket, Subscription and Client as coroutines: blocks of the model above
--                  between their awaits. Async.Calls and Async.Methods have the methods,
--                  Async.Interleaved the tasks of the event loop, Async.Safety and Async.Kept what each
--                  block keeps, Async.Alone the runs without another task,
--                  Async.Sequences that the calls in order are one of the interleavings
--   Urls           transformers.py and utils.py, and the URLs of client.py and channel.py
--   Exceptions     exceptions.py
--   Usage          the example usage.py
--   Sync           the synchronous stubs, realtime/_sync
--   Tests          runs on small inputs
-- A definition has the name of its function, without a leading underscore.
--
-- Bounds. A send can find the connection closed, which reconnects, which sends again. `on_closed` bounds
-- this by fuel: as much as the answers of the socket that are foreseen is enough, since each such round
-- takes one. Where the fuel is used up the error `out_of_fuel` is raised, which is the model's own and
-- which no handler catches, that of `connect` included. `connect_loop` counts the rounds that
-- `max_retries` leaves. Times of `connect` are in milliseconds. Numbers are not bounded, as in Python.
--
-- Not modelled. The websocket library is a list of answers to `send` and one of outcomes of dials, which
-- are read one by one; where a list is at its end, sends and dials succeed. What the socket answers is
-- fixed when a send starts. Outside Async a method runs to its end without a switch to another task, and
-- a dict does not change while a loop runs over it; in Async other tasks run at each await on the socket,
-- a dial or a sleep, and a loop over the channels raises where their number has changed. A message that
-- is buffered while `_flush_send_buffer` waits is not seen by its loop. JSON that is passed on unread is a
-- text, and a user function a number whose calls are recorded. What `urllib` does with a URL is a
-- parameter. The validation by pydantic, logging, and what usage.py prints are left out.
-- The errors of dials are one error, which `connect` raises again without telling them apart. A timer
-- task that is cancelled while it runs its callback is recorded as interrupted, but what its callback
-- still does until then is not cut short. `send` takes a Message, not the dict that is deprecated.
-- `join_ref`, which is None in every message that the program makes, is left out of Message. A
-- presence_ref is any value that can be compared, also one that Python cannot hash.
pub mod Prelude
pub mod Types
pub mod Timer
pub mod Presence
pub mod World
pub mod Channel
pub mod Push
pub mod Socket
pub mod Subscription
pub mod Messages
pub mod Client
pub mod Stable
pub mod Registry
pub mod Urls
pub mod Exceptions
pub mod Sync
pub mod Async
pub mod Usage
pub mod References
mod Tests
