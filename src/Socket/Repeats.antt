-- ===== src/Socket/Repeats.antt =====
-- The flush of the buffer in realtime/_async/client.py, where the connection closes during it.
use realtime_py.Prelude.{
  ℕ, suc, map, String, ◌≡◌, refl, ap, ◌∙◌, Bool, true, false, List, [], ◌∷◌, ◌++◌, not, ◌&&◌,
  is_empty, if_true, arith,
}
use realtime_py.Types.{Message}
use realtime_py.World.{
  World, SendOutcome, M, ⊤, Outcome, returns, continue, for_each, gets, modify, when, ◌>>=◌,
}
use realtime_py.Socket.{
  next_outcome, rest_of, answer, send_message, restart_tasks, flush_send_buffer, on_connect,
  connect, reconnect, on_connect_error, on_closed, rejoin, values,
}
use realtime_py.Socket.Sending.{flush_send_buffer_lem, all_taken}
use realtime_py.Socket.Dialing.{connect_recovers}

-- The client as the next dial leaves it, which succeeds without a wait.
abbrev dialled : List Bool → World → World
dialled rest w = record w { is_connected = true; dial_outcomes = rest; slept = w.slept ++ [] }

-- The client with new tasks, once its buffer is on the wire.
abbrev restored : List Bool → World → World
restored rest w = record (restart_tasks (dialled rest w)).1 {
  wire = w.wire ++ w.send_buffer;
  send_buffer = [];
  send_outcomes = [];
}

module _ (closed : M ⊤) where
  connect_restores :
      (left : ℕ) (rest : List Bool) (w : World)
      → w.is_connected ≡ false
      → w.auto_reconnect ≡ true
      → w.max_retries ≡ suc left
      → w.dial_outcomes ≡ true ∷ rest
      → w.send_outcomes ≡ []
      → connect closed w ≡ (returns tt, restored rest w)
  unfolding on_connect restart_tasks
  connect_restores left rest w down auto retries dial accepts =
      connect_recovers closed 0 left w (restored rest w) rest down auto (retries ∙ omega arith) dial
        (flush_send_buffer_lem closed (restart_tasks (dialled rest w)).1 refl accepts)

  -- Without a channel there is nothing to rejoin.
  reconnect_restores :
      (left : ℕ) (rest : List Bool) (w : World)
      → w.auto_reconnect ≡ true
      → w.max_retries ≡ suc left
      → w.dial_outcomes ≡ true ∷ rest
      → w.send_outcomes ≡ []
      → w.channels ≡ []
      → on_connect_error closed w ≡ (returns tt, restored rest (record w { is_connected = false }))
  unfolding on_connect_error reconnect restart_tasks
  reconnect_restores left rest w auto retries dial accepts alone =
      let down = record w { is_connected = false } in
      if_true _ auto
      ∙ ap (continue rejoin_all) (connect_restores left rest down refl auto retries dial accepts)
      ∙ ap (λ d. for_each (rejoin closed) (map (λ (e : String × ℕ). e.1) d) (restored rest down))
          alone
    where
      rejoin_all : ⊤ → M ⊤
      rejoin_all _ = do
        connected ← gets (λ w. w.is_connected)
        topics ← gets values
        when connected (for_each (rejoin closed) topics)

-- If the connection closes under the first message of the buffer while `_flush_send_buffer` sends it,
-- and the dial of the reconnect succeeds, on a client without channels, the flush returns, and the
-- wire gets the whole buffer and then all of it but the first message once more.
pub flush_repeats :
    (fuel left : ℕ) (rest : List Bool) (m : Message) (ms : List Message) (w : World)
    → w.is_connected ≡ true
    → w.auto_reconnect ≡ true
    → w.max_retries ≡ suc left
    → w.dial_outcomes ≡ true ∷ rest
    → w.send_outcomes ≡ SendOutcome.closed_error ∷ []
    → w.send_buffer ≡ m ∷ ms
    → w.channels ≡ []
    → let (r, w') = flush_send_buffer (on_closed (suc fuel)) w in
      (r ≡ returns tt) × (w'.wire ≡ (w.wire ++ (m ∷ ms)) ++ ms) × (w'.send_buffer ≡ [])
unfolding flush_send_buffer send_message answer on_closed restart_tasks
flush_repeats fuel left rest m ms w connected auto retries dial cut buffer alone =
    let closed = on_closed (suc fuel) in
    let cut_off = record w { send_outcomes = [] } in
    let v = restored rest (record cut_off { is_connected = false }) in
    let full : (w.is_connected && not (is_empty w.send_buffer)) ≡ true =
      rw (connected, buffer) refl in
    let first : send_message closed m w ≡ (returns tt, v) =
      if_true _ connected
      ∙ ap (λ os. answer closed m (next_outcome os) (record w { send_outcomes = rest_of os })) cut
      ∙ reconnect_restores (on_closed fuel) left rest cut_off auto retries dial refl alone in
    let again = all_taken closed ms v refl refl in
    let run =
      if_true (returns tt, w) full
      ∙ ap (λ b. clear (for_each (send_message closed) b w)) buffer
      ∙ ap (λ x. clear (continue (λ _. for_each (send_message closed) ms) x)) first
      ∙ ap clear again in
    rw run (refl, ap (λ b. (w.wire ++ b) ++ ms) buffer, refl)
  where
    clear : Outcome ⊤ × World → Outcome ⊤ × World
    clear = continue (λ _. modify (λ v. record v { send_buffer = [] }))
