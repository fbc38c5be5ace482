-- ===== src/Socket/Offline.antt =====
-- Messages that are sent while the connection of realtime/_async/client.py is closed, until `connect`.
use realtime_py.Prelude.{ℕ, suc, ◌+◌, ◌≡◌, refl, Bool, true, false, List, [], ◌∷◌, ◌++◌}
use realtime_py.Types.{Message}
use realtime_py.World.{World, M, ⊤, returns}
use realtime_py.Socket.{restart_tasks, on_connect, connect}
use realtime_py.Socket.Sending.{send_all, send-buffers, flush_send_buffer_lem}
use realtime_py.Socket.Dialing.{connect_recovers, failures, waits}

module _ (closed : M ⊤) where
  -- Messages that are sent while the connection is closed reach the wire by the next `connect`, each
  -- once, in the order in which they were sent and after those of the buffer, which is then empty, if
  -- `auto_reconnect` is set, fewer dials than `max_retries` fail before one succeeds, and the socket
  -- then takes every message.
  pub offline_messages_arrive :
      (messages : List Message) (n left : ℕ) (rest : List Bool) (w : World)
      → w.is_connected ≡ false
      → w.auto_reconnect ≡ true
      → w.max_retries ≡ n + suc left
      → w.dial_outcomes ≡ failures n (true ∷ rest)
      → w.send_outcomes ≡ []
      → let (r, w') = send_all closed messages w in
        let (r', w'') = connect closed w' in
        (r ≡ returns tt)
        × (r' ≡ returns tt)
        × (w''.is_connected ≡ true)
        × (w''.wire ≡ w.wire ++ (w.send_buffer ++ messages))
        × (w''.send_buffer ≡ [])
  unfolding on_connect restart_tasks
  offline_messages_arrive messages n left rest w down auto retries dials accepts =
      let held = record w { send_buffer = w.send_buffer ++ messages } in
      let up = record held {
        is_connected = true;
        dial_outcomes = rest;
        slept = w.slept ++ waits n 0 w.initial_backoff;
      } in
      let greeted = (restart_tasks up).1 in
      let arrived = record greeted {
        wire = w.wire ++ (w.send_buffer ++ messages);
        send_buffer = [];
        send_outcomes = [];
      } in
      rw (send-buffers closed messages w down) (
        rw
          (connect_recovers closed n left held arrived rest down auto retries dials
            (flush_send_buffer_lem closed greeted refl accepts))
          (refl, refl, refl, refl, refl))
