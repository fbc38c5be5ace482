-- ===== src/Socket/Fuel.antt =====
-- Which calls of realtime/_async/channel.py, push.py and client.py leave the answers of the socket
-- alone, for the fuel of `on_closed`.
pub mod Enough
use realtime_py.Prelude.{
  ℕ, zero, suc, ◌+◌, ◌≤◌, ◌<◌, ◌≡◌, ◌≢◌, refl, String, Bool, true, false, not, ◌&&◌, Option, none,
  some, List, [], ◌∷◌, ◌++◌, arith, ap, ◌∙◌, length, is_empty, leb, if◌then◌else◌, Bool-cases, inl,
  inr,
}
use realtime_py.Types.{
  RealtimeAcknowledgementStatus, RealtimeSubscribeStates, ChannelStates, PostgresRowChange, Payload,
  Message,
}
use realtime_py.World.{
  World, Channel, Push, Hook, Response, Job, UserCall, SendOutcome, Error, out_of_fuel, dial_failed,
  gave_up, type_error, M, ⊤, Outcome, returns, raises, pure, raise, gets, modify, continue, ◌>>=◌,
  ◌>>◌, skip, when, for_each, modify_channel, modify_push, join_ok, join_timeout, leave_close,
  subscribe_ok, subscribe_error, subscribe_timeout, user_hook,
}
use realtime_py.Channel.{
  set_state, spawn, call_user, reset_rejoin_timer, schedule_rejoin, remove_from_client, on_close,
  on_join_ok, on_join_timeout, call_subscriber, on_subscribe_ok, run_hook,
}
use realtime_py.Push.{new_push, start_timeout, cancel_timeout, destroy, receive, call_with}
use realtime_py.Socket.{
  make_ref, values, next_outcome, rest_of, register, restart_tasks, dials, answer, send_message,
  send, push_send, resend, unsubscribe, leave_open_topic, rejoin, flush_send_buffer, on_connect,
  attempt, connect_loop, connect, next_backoff, wait_time, reconnect, on_connect_error, on_closed,
}

abbrev pub FuelLeft : {A : Type 0} → Outcome A → Type 0
FuelLeft (returns a) = Unit
FuelLeft (raises e) = e ≢ out_of_fuel

-- With at most so many answers foreseen, the call leaves at most so many and does not run out of fuel.
pub record Ends {A : Type 0} (n : ℕ) (m : M A) : Type 0 where
  pub at :
      (w : World)
      → length w.send_outcomes ≤ n
      → FuelLeft (m w).0 × (length (m w).1.send_outcomes ≤ n)

module _ {n : ℕ} where
  continue-Ends :
      {A B : Type 0} (f : A → M B) (r : Outcome A × World)
      → ((a : A) → Ends n (f a))
      → FuelLeft r.0 × (length r.1.send_outcomes ≤ n)
      → FuelLeft (continue f r).0 × (length (continue f r).1.send_outcomes ≤ n)
  continue-Ends f (returns a, w) k h = (k a).at w h.1
  continue-Ends f (raises e, w) k h = h

  pub Ends-bind :
      {A B : Type 0} {m : M A} {f : A → M B}
      → Ends n m
      → ((a : A) → Ends n (f a))
      → Ends n (m >>= f)
  Ends-bind {m} {f} km kf = record { at = λ w h. continue-Ends f (m w) kf (km.at w h) }

  pub Ends-pure : {A : Type 0} (a : A) → Ends n (pure a)
  Ends-pure a = record { at = λ w h. (tt, h) }

  pub Ends-gets : {A : Type 0} (f : World → A) → Ends n (gets f)
  Ends-gets f = record { at = λ w h. (tt, h) }

  pub Ends-when : (b : Bool) {m : M ⊤} → Ends n m → Ends n (when b m)
  Ends-when true k = k
  Ends-when false k = record { at = λ w h. (tt, h) }

  pub Ends-for_each :
      {A : Type 0} {f : A → M ⊤} (xs : List A) → ((x : A) → Ends n (f x)) → Ends n (for_each f xs)
  Ends-for_each [] k = Ends-pure tt
  Ends-for_each (x ∷ xs) k = Ends-bind (k x) (λ _. Ends-for_each xs k)

  pub modify-Ends :
      (f : World → World)
      → ((w : World) → (f w).send_outcomes ≡ w.send_outcomes)
      → Ends n (modify f)
  modify-Ends f same = record { at = λ w h. (tt, rw (same w) h) }

  pub ruleset flow_rules = (Ends-bind, Ends-pure, Ends-gets, Ends-when, Ends-for_each)

  -- The calls that do not send.
  pub modify_channel-Ends : (c : ℕ) (f : Channel → Channel) → Ends n (modify_channel c f)
  modify_channel-Ends c f = record { at = λ w h. (tt, h) }

  pub modify_push-Ends : (p : ℕ) (f : Push → Push) → Ends n (modify_push p f)
  modify_push-Ends p f = record { at = λ w h. (tt, h) }

  pub set_state-Ends : (c : ℕ) (s : ChannelStates) → Ends n (set_state c s)
  unfolding set_state
  set_state-Ends c s = record { at = λ w h. (tt, h) }

  pub spawn-Ends : (job : Job) → Ends n (spawn job)
  unfolding spawn
  spawn-Ends job = record { at = λ w h. (tt, h) }

  pub call_user-Ends : (call : UserCall) → Ends n (call_user call)
  unfolding call_user
  call_user-Ends call = record { at = λ w h. (tt, h) }

  pub reset_rejoin_timer-Ends : (c : ℕ) → Ends n (reset_rejoin_timer c)
  unfolding reset_rejoin_timer
  reset_rejoin_timer-Ends c = record { at = λ w h. (tt, h) }

  pub schedule_rejoin-Ends : (c : ℕ) → Ends n (schedule_rejoin c)
  unfolding schedule_rejoin
  schedule_rejoin-Ends c = record { at = λ w h. (tt, h) }

  pub remove_from_client-Ends : (c : ℕ) → Ends n (remove_from_client c)
  unfolding remove_from_client
  remove_from_client-Ends c = record { at = λ w h. ground arith }

  pub new_push-Ends : (c : ℕ) (e : String) (l : Payload) (t : ℕ) → Ends n (new_push c e l t)
  unfolding new_push
  new_push-Ends c e l t = record { at = λ w h. (tt, h) }

  pub start_timeout-Ends : (p : ℕ) → Ends n (start_timeout p)
  unfolding start_timeout
  start_timeout-Ends p = record { at = λ w h. ground arith }

  pub destroy-Ends : (p : ℕ) → Ends n (destroy p)
  unfolding destroy cancel_timeout
  destroy-Ends p = record { at = λ w h. ground arith }

  pub make_ref-Ends : Ends n make_ref
  unfolding make_ref
  make_ref-Ends = record { at = λ w h. (tt, h) }

  pub restart_tasks-Ends : Ends n restart_tasks
  unfolding restart_tasks
  restart_tasks-Ends = record { at = λ w h. (tt, h) }

  pub ruleset step_rules = (
    flow_rules, modify_channel-Ends, modify_push-Ends, set_state-Ends, spawn-Ends, call_user-Ends,
    reset_rejoin_timer-Ends, schedule_rejoin-Ends, remove_from_client-Ends, new_push-Ends,
    start_timeout-Ends, destroy-Ends, make_ref-Ends, restart_tasks-Ends,
  )

  pub register-Ends : (p : ℕ) → Ends n (register p)
  unfolding register
  register-Ends p = search step_rules depth 12

  pub on_join_ok-Ends : (c : ℕ) → Ends n (on_join_ok c)
  unfolding on_join_ok
  on_join_ok-Ends c = search step_rules depth 9

  pub on_join_timeout-Ends : (c : ℕ) → Ends n (on_join_timeout c)
  unfolding on_join_timeout set_state schedule_rejoin
  on_join_timeout-Ends c = record { at = λ w h. ground arith }

  pub on_close-Ends : (c : ℕ) → Ends n (on_close c)
  unfolding on_close
  on_close-Ends c = search step_rules

  pub call_subscriber-Ends :
      (f : Option ℕ) (s : RealtimeSubscribeStates) → Ends n (call_subscriber f s)
  unfolding call_subscriber
  call_subscriber-Ends none s = search step_rules
  call_subscriber-Ends (some f) s = search step_rules

  pub on_subscribe_ok-Ends :
      (c : ℕ) (f : Option ℕ) (xs : Option (List PostgresRowChange))
      → Ends n (on_subscribe_ok c f xs)
  unfolding on_subscribe_ok spawn
  on_subscribe_ok-Ends c f xs = record {
    at = λ w h. grind (
      arith,
      (call_subscriber-Ends f RealtimeSubscribeStates.subscribed).at,
      (call_subscriber-Ends f RealtimeSubscribeStates.channel_error).at,
    );
  }

  pub run_hook-Ends : (h : Hook) (r : Response) → Ends n (run_hook h r)
  unfolding run_hook
  run_hook-Ends (join_ok c) r = on_join_ok-Ends c
  run_hook-Ends (join_timeout c) r = on_join_timeout-Ends c
  run_hook-Ends (leave_close c) r = on_close-Ends c
  run_hook-Ends (subscribe_ok c f) r = on_subscribe_ok-Ends c f _
  run_hook-Ends (subscribe_error f) r = call_subscriber-Ends f _
  run_hook-Ends (subscribe_timeout f) r = call_subscriber-Ends f _
  run_hook-Ends (user_hook f) r = call_user-Ends _
