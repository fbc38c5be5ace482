-- ===== src/Stable/Sends.antt =====
-- Stable invariants and the calls of realtime/_async/client.py, channel.py and push.py that send.
use realtime_py.Prelude.{ℕ, ◌+◌, refl, String, true, false, none, some, [], ◌∷◌, ◌++◌, ◌≡◌, ap, ◌∙◌}
use realtime_py.Prelude.Decimal.{decimal}
use realtime_py.Types.{ChannelStates, RealtimeAcknowledgementStatus, Message, default_timeout}
use realtime_py.World.{
  World, Push, leave_close, put_at_self, continue, SendOutcome, M, ⊤, pure, gets, ◌>>=◌, ◌>>◌,
  modify_push, put_at, set_push, not_connected,
}
use realtime_py.World.Keeps.{Keeps-test, Keeps, Keeps-bind, Keeps-pure, Keeps-for_each, Keeps-raise}
use realtime_py.Push.{start_timeout, new_push, receive, add_callback, fresh_push}
use realtime_py.Push.Timeout.{receive_waits}
use realtime_py.Types.ChannelEvents
use realtime_py.Socket.{
  make_ref, next_outcome, rest_of, register, dup_channels, restart_tasks, answer, send_message,
  send, push_send, resend, unsubscribe, leave_open_topic, rejoin, has_timed_out,
}
use realtime_py.Channel.{in_state}
use realtime_py.Stable.{Same, Same-rest, Steady}
use realtime_py.Stable.Quiet.{Keeps-modify, Keeps-modify_push, Keeps-set_state, steady_rules}

-- `register` past the entry.
abbrev after_entry : ℕ → Push → String → M Message
after_entry p ps ref = do
  start_timeout p
  modify_push p (λ ps. record ps { sent = true })
  ch ← gets (λ w. w.channel_at ps.channel)
  pure (record { topic = ch.topic; event = ps.event; ref = some ref; payload = ps.payload })

module _ {P : World → Type 0} ⦃s : Steady P⦄ where
  pub Keeps-make_ref : Keeps P make_ref
  unfolding make_ref
  Keeps-make_ref = record { at = λ w h. s.counted w h }

  pub Keeps-restart_tasks : Keeps P restart_tasks
  unfolding restart_tasks
  Keeps-restart_tasks = record {
    at = λ w h. s.rest w (restart_tasks w).1 (Same-rest w _ refl refl refl refl) h;
  }

  Keeps-after_entry : (p : ℕ) (ps : Push) (ref : String) → Keeps P (after_entry p ps ref)
  Keeps-after_entry p ps ref = search steady_rules depth 12

  pub Keeps-register : (p : ℕ) → Keeps P (register p)
  unfolding register make_ref
  Keeps-register p = record {
    at = λ w h.
        let ps = put_at p (record (w.push_at p) { ref = some (decimal (w.ref + 1)) }) w.push_at p in
        let named =
          set_push p (record (w.push_at p) { ref = some (decimal (w.ref + 1)) })
            (record w { ref = w.ref + 1 }) in
        let counted =
          s.rest (record w { ref = w.ref + 1 }) named (Same-rest _ named refl refl refl refl)
            (s.counted w h) in
        (Keeps-after_entry p ps (decimal (w.ref + 1))).at _ (s.entered ps.channel p named counted);
  }

module _ {P : World → Type 0} ⦃s : Steady P⦄ (closed : M ⊤) (closed_keeps : Keeps P closed) where
  Keeps-answer : (m : Message) (o : SendOutcome) → Keeps P (answer closed m o)
  unfolding answer
  Keeps-answer m SendOutcome.sent =
      Keeps-modify (λ w. record w { wire = w.wire ++ m ∷ [] })
        (λ w. Same-rest w _ refl refl refl refl)
  Keeps-answer m SendOutcome.closed_error = closed_keeps
  Keeps-answer m SendOutcome.closed_ok = Keeps-pure tt

  pub Keeps-after_answer :
      (f : World → World)
      → ((w : World) → Same w (f w))
      → {A : Type 0} {m : M A} → Keeps P m
      → Keeps P (λ w. m (f w))
  Keeps-after_answer f same k = record { at = λ w h. k.at (f w) (s.rest w (f w) (same w) h) }

  pub Keeps-send_message : (m : Message) → Keeps P (send_message closed m)
  unfolding send_message
  Keeps-send_message m =
      Keeps-test (λ w. w.is_connected)
        (λ w.
          Keeps-after_answer (λ v. record v { send_outcomes = rest_of v.send_outcomes })
            (λ v. Same-rest v _ refl refl refl refl)
            (Keeps-answer m (next_outcome w.send_outcomes)))
        (λ w. Keeps-raise (not_connected "_send"))

  pub Keeps-send : (m : Message) → Keeps P (send closed m)
  unfolding send
  Keeps-send m =
      Keeps-test (λ w. w.is_connected) (λ _. Keeps-send_message m)
        (λ _.
          Keeps-modify (λ w. record w { send_buffer = w.send_buffer ++ m ∷ [] })
            (λ w. Same-rest w _ refl refl refl refl))

  pub Keeps-push_send : (p : ℕ) → Keeps P (push_send closed p)
  unfolding push_send
  Keeps-push_send p =
      Keeps-test (λ w. has_timed_out (w.push_at p)) (λ _. Keeps-pure tt)
        (λ _. Keeps-bind (Keeps-register p) Keeps-send)

  Keeps-resend : (p : ℕ) → Keeps P (resend closed p)
  unfolding resend
  Keeps-resend p =
      Keeps-bind
        (Keeps-modify_push p (λ ps. record ps { ref = none; received_resp = none; sent = false }))
        (λ _. Keeps-push_send p)

  -- The leave push of `unsubscribe`: no response has come yet, so its callbacks are only noted.
  Keeps-leave_push :
      (c : ℕ)
      → Keeps P (do
        leave_push ← new_push c ChannelEvents.leave [] default_timeout
        receive leave_push RealtimeAcknowledgementStatus.ok (leave_close c)
        receive leave_push RealtimeAcknowledgementStatus.error (leave_close c)
        push_send closed leave_push)
  unfolding new_push
  Keeps-leave_push c = record {
    at = λ w h.
        let p = w.next_push in
        let ok = RealtimeAcknowledgementStatus.ok in
        let error = RealtimeAcknowledgementStatus.error in
        let w0 = record (set_push p (fresh_push c ChannelEvents.leave [] default_timeout) w) {
          next_push = p + 1;
        } in
        let e0 : (w0.push_at p).received_resp ≡ none = rw put_at_self refl in
        let w1 = set_push p (add_callback ok (leave_close c) (w0.push_at p)) w0 in
        let e1 : (w1.push_at p).received_resp ≡ none = rw put_at_self e0 in
        let w2 = set_push p (add_callback error (leave_close c) (w1.push_at p)) w1 in
        let run =
          ap (continue (λ _. receive p error (leave_close c) >> push_send closed p))
            (receive_waits p ok (leave_close c) w0 e0)
          ∙ ap (continue (λ _. push_send closed p)) (receive_waits p error (leave_close c) w1 e1) in
        rw run ((Keeps-push_send p).at w2 (s.rest w w2 (Same-rest w w2 refl refl refl refl) h));
  }

  ruleset send_rules = (steady_rules, Keeps-leave_push)

  pub Keeps-unsubscribe : (c : ℕ) → Keeps P (unsubscribe closed c)
  unfolding unsubscribe
  Keeps-unsubscribe c = search send_rules depth 20

  Keeps-leave_open_topic : (topic : String) → Keeps P (leave_open_topic closed topic)
  unfolding leave_open_topic
  Keeps-leave_open_topic topic = record {
    at = λ w h. (Keeps-for_each (dup_channels topic w) Keeps-unsubscribe).at w h;
  }

  pub Keeps-rejoin : (c : ℕ) → Keeps P (rejoin closed c)
  unfolding rejoin
  Keeps-rejoin c =
      Keeps-test (λ w. in_state ChannelStates.leaving (w.channel_at c)) (λ _. Keeps-pure tt)
        (λ w.
          Keeps-bind
            (Keeps-bind (Keeps-leave_open_topic (w.channel_at c).topic)
              (λ _. Keeps-set_state c ChannelStates.joining))
            (λ _. Keeps-resend (w.channel_at c).join_push))
