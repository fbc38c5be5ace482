-- ===== src/Stable/Quiet.antt =====
-- Stable invariants and the calls of realtime/_async/channel.py and push.py that neither send nor run a
-- callback.
use realtime_py.Prelude.{ℕ, ◌≡◌, refl, ◌||◌, String, Option, none, some, arith}
use realtime_py.Prelude.Dict.{lookup, erase}
use realtime_py.Types.{ChannelStates, Payload}
use realtime_py.World.{
  World, Channel, Push, Job, UserCall, key_error, ⊤, Outcome, returns, raises, modify,
  modify_channel, modify_push,
}
use realtime_py.World.Keeps.{
  Keeps, Keeps-bind, Keeps-pure, Keeps-test, Keeps-gets, Keeps-for_each, Keeps-if, Keeps-raise,
  keeps_rules,
}
use realtime_py.Channel.{
  in_state, set_state, spawn, call_user, reset_rejoin_timer, schedule_rejoin, remove_from_client,
  on_close, on_error, on_join_ok, on_join_timeout,
}
use realtime_py.Push.{new_push, start_timeout, cancel_timeout, destroy}
use realtime_py.Stable.{Same, Same-rest, Same-set_channel, Steady, Stable, Stable-Steady}

module _ {P : World → Type 0} ⦃s : Steady P⦄ where
  -- A change that an invariant does not read.
  pub Keeps-modify : (f : World → World) → ((w : World) → Same w (f w)) → Keeps P (modify f)
  Keeps-modify f same = record { at = λ w h. s.rest w (f w) (same w) h }

  pub Keeps-modify_channel :
      (c : ℕ) (f : Channel → Channel)
      → ((ch : Channel) → (f ch).topic ≡ ch.topic)
      → ((ch : Channel) → (f ch).messages_waiting_for_ack ≡ ch.messages_waiting_for_ack)
      → Keeps P (modify_channel c f)
  Keeps-modify_channel c f t m = record {
    at = λ w h.
        s.rest w _
          (Same-set_channel c (f (w.channel_at c)) w _ (t (w.channel_at c)) (m (w.channel_at c))
            refl refl refl refl)
          h;
  }

  pub Keeps-modify_push : (p : ℕ) (f : Push → Push) → Keeps P (modify_push p f)
  Keeps-modify_push p f = record { at = λ w h. s.rest w _ (Same-rest w _ refl refl refl refl) h }

  pub Keeps-set_state : (c : ℕ) (state : ChannelStates) → Keeps P (set_state c state)
  unfolding set_state
  Keeps-set_state c state =
      Keeps-modify_channel c (λ ch. record ch { state = state }) (λ ch. refl) (λ ch. refl)

  pub Keeps-spawn : (job : Job) → Keeps P (spawn job)
  unfolding spawn
  Keeps-spawn job = record { at = λ w h. s.rest w _ (Same-rest w _ refl refl refl refl) h }

  pub Keeps-call_user : (call : UserCall) → Keeps P (call_user call)
  unfolding call_user
  Keeps-call_user call = record { at = λ w h. s.rest w _ (Same-rest w _ refl refl refl refl) h }

  pub Keeps-reset_rejoin_timer : (c : ℕ) → Keeps P (reset_rejoin_timer c)
  unfolding reset_rejoin_timer
  Keeps-reset_rejoin_timer c = record {
    at = λ w h.
        s.rest w (reset_rejoin_timer c w).1
          (Same-set_channel c _ w (reset_rejoin_timer c w).1 refl refl refl refl refl refl) h;
  }

  pub Keeps-schedule_rejoin : (c : ℕ) → Keeps P (schedule_rejoin c)
  unfolding schedule_rejoin
  Keeps-schedule_rejoin c = record {
    at = λ w h.
        s.rest w (schedule_rejoin c w).1
          (Same-set_channel c _ w (schedule_rejoin c w).1 refl refl refl refl refl refl) h;
  }

  pub Keeps-new_push : (c : ℕ) (e : String) (l : Payload) (t : ℕ) → Keeps P (new_push c e l t)
  unfolding new_push
  Keeps-new_push c e l t = record { at = λ w h. s.rest w _ (Same-rest w _ refl refl refl refl) h }

  pub Keeps-start_timeout : (p : ℕ) → Keeps P (start_timeout p)
  unfolding start_timeout
  Keeps-start_timeout p = record {
    at = λ w h.
        s.rest w (start_timeout p w).1
          (Same-rest w (start_timeout p w).1 (ground arith) (ground arith) (ground arith)
            (ground arith))
          h;
  }

  pub Keeps-destroy : (p : ℕ) → Keeps P (destroy p)
  unfolding destroy cancel_timeout
  Keeps-destroy p = record {
    at = λ w h.
        s.rest w (destroy p w).1
          (Same-rest w (destroy p w).1 (ground arith) (ground arith) (ground arith) (ground arith))
          h;
  }

  pub ruleset steady_rules = (
    keeps_rules, Keeps-modify_push, Keeps-set_state, Keeps-spawn, Keeps-call_user,
    Keeps-reset_rejoin_timer, Keeps-schedule_rejoin, Keeps-new_push, Keeps-start_timeout,
    Keeps-destroy, Keeps-modify_channel,
  )

  pub Keeps-on_error : (c : ℕ) → Keeps P (on_error c)
  unfolding on_error
  Keeps-on_error c =
      Keeps-test
        (λ w.
          let ch = w.channel_at c in
          in_state ChannelStates.leaving ch || in_state ChannelStates.closed ch)
        (λ _. Keeps-pure tt)
        (λ _. Keeps-bind (Keeps-set_state c ChannelStates.errored) (λ _. Keeps-schedule_rejoin c))

  pub Keeps-on_join_ok : (c : ℕ) → Keeps P (on_join_ok c)
  unfolding on_join_ok
  Keeps-on_join_ok c = search steady_rules depth 9

  pub Keeps-on_join_timeout : (c : ℕ) → Keeps P (on_join_timeout c)
  unfolding on_join_timeout
  Keeps-on_join_timeout c =
      Keeps-test (λ w. in_state ChannelStates.joining (w.channel_at c))
        (λ _. Keeps-bind (Keeps-set_state c ChannelStates.errored) (λ _. Keeps-schedule_rejoin c))
        (λ _. Keeps-pure tt)

module _ {P : World → Type 0} ⦃s : Stable P⦄ where
  pub Keeps-remove_from_client : (c : ℕ) → Keeps P (remove_from_client c)
  unfolding remove_from_client
  Keeps-remove_from_client c = record {
    at = λ w h. by_entry w h (lookup (w.channel_at c).topic w.channels);
  }
    where
      by_entry :
          (w : World) (h : P w) (o : Option ℕ)
          → P
              (elim o as (λ _. Outcome ⊤ × World) [
                | none ↦ (raises key_error, w)
                | some _ ↦
                    (returns tt, record w { channels = erase (w.channel_at c).topic w.channels })
              ]).1
      by_entry w h none = h
      by_entry w h (some d) = s.removed (w.channel_at c).topic w h

  pub ruleset quiet_rules = (steady_rules, Keeps-remove_from_client)

  pub Keeps-on_close : (c : ℕ) → Keeps P (on_close c)
  unfolding on_close
  Keeps-on_close c = search quiet_rules
