-- ===== src/Async/Alone/Sending.antt =====
-- The coroutines of realtime/_async that send and connect, run alone.
use realtime_py.Prelude.{
  ℕ, zero, suc, ◌+◌, ◌≡◌, ◌∙◌, refl, ap, String, Bool, true, false, not, ◌&&◌, [], ◌∷◌, ◌++◌,
  is_empty, if◌then◌else◌,
}
use realtime_py.Types.{ChannelStates, Message}
use realtime_py.World.{
  World, SendOutcome, Error, not_connected, dial_failed, M, ⊤, Outcome, returns, raises, raise,
  pure, gets, continue,
}
use realtime_py.World
use realtime_py.Channel.{in_state, set_state}
use realtime_py.Socket
use realtime_py.Socket.{
  next_outcome, rest_of, register, has_timed_out, dup_channels, restart_tasks, dials, wait_time,
  next_backoff,
}
use realtime_py.Socket.{gives_up}
use realtime_py.Async.{Co, lift, bind, run, run-bind, run-try, await, try, ◌>>◌}
use realtime_py.Async.Calls.{
  hand, dial, slept_for, after_send, send_message, send, push_send, resend, unsubscribe,
  leave_open_topic, rejoin, flush_send_buffer, on_connect, attempt, retry, connect_loop, connect,
}
use realtime_py.Async.Alone.{
  Alone, Alone-lift, Alone-bind, Alone-read, Alone-if, Alone-for_each, Alone-await, Alone-pause,
}

module _ (closed : Co ⊤) (call : M ⊤) (same : Alone closed call) where
  handed :
      (m : Message) (b : Bool) (o : SendOutcome) (w v : World)
      → continue
          (λ o. run (await >> after_send closed o))
          (if b
            then (
              returns o,
              elim o as (λ _. World) [
                | SendOutcome.sent ↦ record v { wire = v.wire ++ m ∷ [] }
                | _ ↦ v
              ],
            )
            else (raises (not_connected "_send"), w))
        ≡ (if b then Socket.answer call m o v else (raises (not_connected "_send"), w))
  unfolding after_send Socket.answer run bind
  handed m true SendOutcome.sent w v = refl
  handed m true SendOutcome.closed_error w v = (Alone-await same).runs v
  handed m true SendOutcome.closed_ok w v = refl
  handed m false o w v = refl

  pub Alone-send_message :
      (m : Message) → Alone (send_message closed m) (Socket.send_message call m)
  unfolding send_message Socket.send_message hand run
  Alone-send_message m = record {
    runs = λ w.
        run-bind (λ o. await >> after_send closed o) (lift (hand m)) w
        ∙ handed m w.is_connected (next_outcome w.send_outcomes) w
            (record w { send_outcomes = rest_of w.send_outcomes });
  }

  pub Alone-send : (m : Message) → Alone (send closed m) (Socket.send call m)
  unfolding send Socket.send
  Alone-send m =
      let buffer : M ⊤ = λ w. (returns tt, record w { send_buffer = w.send_buffer ++ m ∷ [] }) in
      Alone-read (λ w. w.is_connected) (λ b w. if b then Socket.send_message call m w else buffer w)
        (λ b. Alone-if b (Alone-send_message m) (Alone-lift buffer))

  pub Alone-push_send : (p : ℕ) → Alone (push_send closed p) (Socket.push_send call p)
  unfolding push_send Socket.push_send
  Alone-push_send p =
      Alone-read (λ w. has_timed_out (w.push_at p))
        (λ b w. if b then (returns tt, w) else World.◌>>=◌ (register p) (Socket.send call) w)
        (λ b. Alone-if b (Alone-lift (pure tt)) (Alone-bind (Alone-lift (register p)) Alone-send))

  ruleset alone_rules = (Alone-bind, Alone-lift, Alone-push_send)

  Alone-resend : (p : ℕ) → Alone (resend closed p) (Socket.resend call p)
  unfolding resend Socket.resend
  Alone-resend p = Alone-bind (Alone-lift _) (λ _. Alone-push_send p)

  pub Alone-unsubscribe : (c : ℕ) → Alone (unsubscribe closed c) (Socket.unsubscribe call c)
  unfolding unsubscribe Socket.unsubscribe
  Alone-unsubscribe c = search alone_rules depth 20

  Alone-leave_open_topic :
      (topic : String) → Alone (leave_open_topic closed topic) (Socket.leave_open_topic call topic)
  unfolding leave_open_topic Socket.leave_open_topic
  Alone-leave_open_topic topic =
      Alone-read (dup_channels topic) (World.for_each (Socket.unsubscribe call))
        (λ channels. Alone-for_each channels Alone-unsubscribe)

  pub Alone-rejoin : (c : ℕ) → Alone (rejoin closed c) (Socket.rejoin call c)
  unfolding rejoin Socket.rejoin
  Alone-rejoin c =
      Alone-read (λ w. w.channel_at c)
        (λ ch w.
          if in_state ChannelStates.leaving ch
          then (returns tt, w)
          else (World.◌>>◌
              (World.◌>>◌ (Socket.leave_open_topic call ch.topic)
                (set_state c ChannelStates.joining))
              (Socket.resend call ch.join_push) w))
        (λ ch. Alone-if (in_state ChannelStates.leaving ch) (Alone-lift (pure tt)) (
          Alone-bind (Alone-bind (Alone-leave_open_topic ch.topic) (λ _. Alone-lift _))
            (λ _. Alone-resend ch.join_push)))

  Alone-flush_send_buffer : Alone (flush_send_buffer closed) (Socket.flush_send_buffer call)
  unfolding flush_send_buffer Socket.flush_send_buffer
  Alone-flush_send_buffer =
      let clear : M ⊤ = λ v. (returns tt, record v { send_buffer = [] }) in
      Alone-read (λ w. w)
        (λ v w.
          if v.is_connected && not (is_empty v.send_buffer)
          then World.◌>>◌ (World.for_each (Socket.send_message call) v.send_buffer) clear w
          else (returns tt, w))
        (λ v.
          Alone-if (v.is_connected && not (is_empty v.send_buffer))
            (Alone-bind (Alone-for_each v.send_buffer Alone-send_message) (λ _. Alone-lift clear))
            (Alone-lift (pure tt)))

  Alone-on_connect : Alone (on_connect closed) (Socket.on_connect call)
  unfolding on_connect Socket.on_connect
  Alone-on_connect = Alone-bind (Alone-lift restart_tasks) (λ _. Alone-flush_send_buffer)

  dialled :
      (b : Bool) (w v : World)
      → continue
          (λ _. run (on_connect closed))
          (if b then (returns tt, w) else (raises dial_failed, v))
        ≡ (if b then Socket.on_connect call w else (raises dial_failed, v))
  dialled true w v = Alone-on_connect.runs w
  dialled false w v = refl

  Alone-attempt : Alone (attempt closed) (Socket.attempt call)
  unfolding attempt Socket.attempt dial run
  Alone-attempt = record {
    runs = λ w.
        let w' = record w { dial_outcomes = rest_of w.dial_outcomes } in
        run-bind (λ _. on_connect closed) (await >> lift dial) w
        ∙ ap (continue (λ _. run (on_connect closed))) ((Alone-await (Alone-lift dial)).runs w)
        ∙ dialled (dials w.dial_outcomes) (record w' { is_connected = true }) w';
  }

  -- The loop of `connect` after an attempt.
  Alone-retried :
      (retries : ℕ) {again : Co ⊤} (k : World → World) (m : M ⊤)
      → Alone again (λ w. m (k w))
      → (x : Outcome ⊤ × World)
      → run (retry retries again x.0) x.1 ≡ (
          let (r, w) = x in
          elim r as (λ _. Outcome ⊤ × World) [
            | returns _ ↦ (returns tt, w)
            | raises e ↦ if gives_up retries e w then (raises e, w) else m (k w)
          ])
  unfolding retry run
  Alone-retried retries k m a (returns _, w) = refl
  Alone-retried retries k m a (raises e, w) =
      (Alone-read (gives_up retries e) (λ b w. if b then (raises e, w) else m (k w))
          (λ b. Alone-if b (Alone-lift (raise e)) a)).runs
        w

  Alone-connect_loop :
      (left retries backoff : ℕ)
      → Alone
          (connect_loop closed left retries backoff)
          (Socket.connect_loop call left retries backoff)
  unfolding connect_loop Socket.connect_loop
  Alone-connect_loop zero retries backoff = Alone-lift _
  Alone-connect_loop (suc left) retries backoff =
      let again =
        lift (slept_for (wait_time backoff retries))
        >> await
        >> connect_loop closed left (retries + 1) (next_backoff backoff) in
      let goes_on =
        Alone-pause (wait_time backoff retries)
          (Alone-connect_loop left (retries + 1) (next_backoff backoff)) in
      record {
        runs = λ w.
            run-bind (retry retries again) (try (attempt closed)) w
            ∙ ap (continue (λ r. run (retry retries again r))) (run-try (attempt closed) w)
            ∙ ap (λ (x : Outcome ⊤ × World). run (retry retries again x.0) x.1)
                (Alone-attempt.runs w)
            ∙ Alone-retried retries
                (λ v. record v { slept = v.slept ++ wait_time backoff retries ∷ [] })
                (Socket.connect_loop call left (retries + 1) (next_backoff backoff)) goes_on
                (Socket.attempt call w);
      }

  pub Alone-connect : Alone (connect closed) (Socket.connect call)
  unfolding connect Socket.connect
  Alone-connect =
      Alone-read (λ w. w)
        (λ v w.
          if v.is_connected
          then (returns tt, w)
          else Socket.connect_loop call v.max_retries 0 v.initial_backoff w)
        (λ v.
          Alone-if v.is_connected (Alone-lift (pure tt))
            (Alone-connect_loop v.max_retries 0 v.initial_backoff))
