-- ===== src/Async/Kept.antt =====
-- Stable invariants and the blocks of the coroutines that send.
use realtime_py.Prelude.{
  ℕ, zero, suc, ◌+◌, refl, String, false, not, ◌&&◌, none, [], ◌∷◌, ◌++◌, is_empty, length, ◌==◌,
  arith, ◌≡◌,
}
use realtime_py.Types.{ChannelStates, Message}
use realtime_py.World.{
  World, SendOutcome, gave_up, out_of_fuel, dict_changed, ⊤, Outcome, returns, raises,
}
use realtime_py.World.Keeps.{Keeps, Keeps-test, Keeps-raise, Keeps-pure, Keeps-gets}
use realtime_py.Channel.{in_state}
use realtime_py.Socket.{wait_time, next_backoff, has_timed_out, dup_channels}
use realtime_py.Async.{Co}
use realtime_py.Socket.{gives_up}
use realtime_py.Async.Calls.{
  hand, dial, slept_for, entry, same_size, entries, for_channels, after_send, send_message, send,
  push_send, resend, unsubscribe, leave_open_topic, rejoin, flush_send_buffer, on_connect, attempt,
  retry, connect_loop, connect, reconnect, on_connect_error, on_closed,
}
use realtime_py.Async.Safety.{
  Safe, Safe-lift, Safe-bind, Safe-try, Safe-skip, Safe-await, Safe-when, Safe-if, Safe-for_each,
  safe_rules,
}
use realtime_py.Stable.{Same-rest, Stable, Stable-Steady}
use realtime_py.Stable.Quiet.{Keeps-modify, Keeps-modify_push, Keeps-set_state, quiet_rules}
use realtime_py.Stable.Hooks.{Keeps-receive}
use realtime_py.Stable.Sends.{Keeps-register, Keeps-restart_tasks}

module _ {P : World → Type 0} ⦃s : Stable P⦄ where
  Keeps-hand : (m : Message) → Keeps P (hand m)
  unfolding hand
  Keeps-hand m = record {
    at = λ w h.
        s.steady.rest w (hand m w).1
          (Same-rest w (hand m w).1 (ground arith) (ground arith) (ground arith) (ground arith)) h;
  }

  Keeps-dial : Keeps P dial
  unfolding dial
  Keeps-dial = record {
    at = λ w h.
        s.steady.rest w (dial w).1
          (Same-rest w (dial w).1 (ground arith) (ground arith) (ground arith) (ground arith)) h;
  }

  pub Keeps-slept_for : (n : ℕ) → Keeps P (slept_for n)
  unfolding slept_for
  Keeps-slept_for n =
      Keeps-modify (λ w. record w { slept = w.slept ++ n ∷ [] })
        (λ w. Same-rest w _ refl refl refl refl)

entry_store : (n i : ℕ) (w : World) → (entry n i w).1 ≡ w
unfolding entry
entry_store n i w = ground arith

module _ {P : World → Type 0} where
  Safe-retry :
      (retries : ℕ) {again : Co ⊤} → Safe P again → (r : Outcome ⊤) → Safe P (retry retries again r)
  unfolding retry
  Safe-retry retries kept (returns _) = Safe-skip
  Safe-retry retries kept (raises e) =
      Safe-bind (Safe-lift (Keeps-gets (gives_up retries e)))
        (λ stop. Safe-if stop (Safe-lift (Keeps-raise e)) kept)

  Keeps-entry : (n i : ℕ) → Keeps P (entry n i)
  Keeps-entry n i = record { at = λ w h. rw (entry_store n i w) h }

  Keeps-same_size : (n : ℕ) → Keeps P (same_size n)
  unfolding same_size
  Keeps-same_size n =
      Keeps-test (λ w. length w.channels == n) (λ _. Keeps-pure tt) (λ _. Keeps-raise dict_changed)

  module _ (body : ℕ → Co ⊤) (kept : (c : ℕ) → Safe P (body c)) where
    Safe-entries : (n left i : ℕ) → Safe P (entries body n left i)
    unfolding entries
    Safe-entries n zero i = Safe-lift (Keeps-same_size n)
    Safe-entries n (suc left) i =
        Safe-bind (Safe-bind (Safe-lift (Keeps-entry n i)) kept) (λ _. Safe-entries n left (i + 1))

    pub Safe-for_channels : Safe P (for_channels body)
    unfolding for_channels
    Safe-for_channels =
        Safe-bind (Safe-lift (Keeps-gets (λ w. length w.channels))) (λ n. Safe-entries n n 0)

module _ {P : World → Type 0} ⦃s : Stable P⦄ (closed : Co ⊤) (closed_safe : Safe P closed) where
  Safe-after_send : (o : SendOutcome) → Safe P (after_send closed o)
  unfolding after_send
  Safe-after_send SendOutcome.sent = Safe-skip
  Safe-after_send SendOutcome.closed_error = closed_safe
  Safe-after_send SendOutcome.closed_ok = Safe-skip

  Safe-send_message : (m : Message) → Safe P (send_message closed m)
  unfolding send_message
  Safe-send_message m = search (safe_rules, Keeps-hand, Safe-after_send)

  Keeps-buffer :
      (m : Message)
      → Keeps P (λ w. (returns tt, record w { send_buffer = w.send_buffer ++ m ∷ [] }))
  Keeps-buffer m =
      Keeps-modify (λ w. record w { send_buffer = w.send_buffer ++ m ∷ [] })
        (λ w. Same-rest w _ refl refl refl refl)

  pub Safe-send : (m : Message) → Safe P (send closed m)
  unfolding send
  Safe-send m =
      Safe-bind (Safe-lift (Keeps-gets (λ w. w.is_connected)))
        (λ connected. Safe-if connected (Safe-send_message m) (Safe-lift (Keeps-buffer m)))

  pub Safe-push_send : (p : ℕ) → Safe P (push_send closed p)
  unfolding push_send
  Safe-push_send p =
      Safe-bind (Safe-lift (Keeps-gets (λ w. has_timed_out (w.push_at p))))
        (λ late. Safe-if late Safe-skip (Safe-bind (Safe-lift (Keeps-register p)) Safe-send))

  Safe-resend : (p : ℕ) → Safe P (resend closed p)
  unfolding resend
  Safe-resend p =
      Safe-bind
        (Safe-lift (
          Keeps-modify_push p (λ ps. record ps { ref = none; received_resp = none; sent = false })))
        (λ _. Safe-push_send p)

  pub Safe-unsubscribe : (c : ℕ) → Safe P (unsubscribe closed c)
  unfolding unsubscribe
  Safe-unsubscribe c = search (safe_rules, quiet_rules, Keeps-receive, Safe-push_send) depth 20

  Safe-leave_open_topic : (topic : String) → Safe P (leave_open_topic closed topic)
  unfolding leave_open_topic
  Safe-leave_open_topic topic =
      Safe-bind (Safe-lift (Keeps-gets (dup_channels topic)))
        (λ channels. Safe-for_each channels Safe-unsubscribe)

  pub Safe-rejoin : (c : ℕ) → Safe P (rejoin closed c)
  unfolding rejoin
  Safe-rejoin c = Safe-bind (Safe-lift (Keeps-gets (λ w. w.channel_at c))) (λ ch.
      Safe-if (in_state ChannelStates.leaving ch) Safe-skip (
        Safe-bind
          (Safe-bind (Safe-leave_open_topic ch.topic)
            (λ _. Safe-lift (Keeps-set_state c ChannelStates.joining)))
          (λ _. Safe-resend ch.join_push)))

  Safe-flush_send_buffer : Safe P (flush_send_buffer closed)
  unfolding flush_send_buffer
  Safe-flush_send_buffer = Safe-bind (Safe-lift (Keeps-gets (λ w. w))) (λ w.
      Safe-if (w.is_connected && not (is_empty w.send_buffer))
        (Safe-bind (Safe-for_each w.send_buffer Safe-send_message) (λ _. Safe-lift (
          Keeps-modify (λ v. record v { send_buffer = [] })
            (λ v. Same-rest v _ refl refl refl refl))))
        Safe-skip)

  Safe-attempt : Safe P (attempt closed)
  unfolding attempt on_connect
  Safe-attempt =
      Safe-bind (Safe-bind Safe-await (λ _. Safe-lift Keeps-dial))
        (λ _. Safe-bind (Safe-lift Keeps-restart_tasks) (λ _. Safe-flush_send_buffer))

  Safe-connect_loop : (left retries backoff : ℕ) → Safe P (connect_loop closed left retries backoff)
  unfolding connect_loop
  Safe-connect_loop zero retries backoff = Safe-lift (Keeps-raise gave_up)
  Safe-connect_loop (suc left) retries backoff =
      let again =
        Safe-bind
          (Safe-bind (Safe-lift (Keeps-slept_for (wait_time backoff retries))) (λ _. Safe-await))
          (λ _. Safe-connect_loop left (retries + 1) (next_backoff backoff)) in
      Safe-bind (Safe-try Safe-attempt) (Safe-retry retries again)

  pub Safe-connect : Safe P (connect closed)
  unfolding connect
  Safe-connect =
      Safe-bind (Safe-lift (Keeps-gets (λ w. w))) (λ w.
        Safe-if w.is_connected Safe-skip (Safe-connect_loop w.max_retries 0 w.initial_backoff))

  Safe-reconnect : Safe P (reconnect closed)
  unfolding reconnect
  Safe-reconnect =
      Safe-bind
        (Safe-lift (
          Keeps-modify (λ w. record w { is_connected = false })
            (λ w. Same-rest w _ refl refl refl refl)))
        (λ _. Safe-bind Safe-connect (λ _.
          Safe-bind (Safe-lift (Keeps-gets (λ w. w.is_connected)))
            (λ connected. Safe-when connected (Safe-for_channels (rejoin closed) Safe-rejoin))))

  pub Safe-on_connect_error : Safe P (on_connect_error closed)
  unfolding on_connect_error
  Safe-on_connect_error =
      Safe-bind (Safe-lift (Keeps-gets (λ w. w.auto_reconnect)))
        (λ auto_reconnect. Safe-when auto_reconnect Safe-reconnect)

module _ {P : World → Type 0} ⦃s : Stable P⦄ where
  pub Safe-on_closed : (fuel : ℕ) → Safe P (on_closed fuel)
  unfolding on_closed
  Safe-on_closed zero = Safe-lift (Keeps-raise out_of_fuel)
  Safe-on_closed (suc fuel) = Safe-on_connect_error (on_closed fuel) (Safe-on_closed fuel)
