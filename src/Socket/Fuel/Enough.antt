-- ===== src/Socket/Fuel/Enough.antt =====
-- The fuel of `on_closed`: as much as the answers of the socket that are foreseen is enough.
use realtime_py.Prelude.{
  ℕ, zero, suc, ◌+◌, ◌≤◌, ◌<◌, ◌≡◌, ◌≢◌, refl, String, true, false, List, [], ◌∷◌, arith, length,
}
use realtime_py.Types.{RealtimeAcknowledgementStatus, ChannelStates, Message}
use realtime_py.World.{
  World, Hook, Response, SendOutcome, out_of_fuel, M, ⊤, Outcome, returns, raises,
}
use realtime_py.Push.{receive, call_with}
use realtime_py.Socket.{
  values, next_outcome, rest_of, answer, send_message, send, push_send, resend, unsubscribe,
  leave_open_topic, rejoin, flush_send_buffer, on_connect, attempt, connect_loop, connect,
  next_backoff, reconnect, on_connect_error, on_closed,
}
use realtime_py.Socket.Fuel.{
  FuelLeft, Ends, step_rules, Ends-bind, Ends-gets, Ends-when, Ends-for_each, modify-Ends,
  set_state-Ends, restart_tasks-Ends, register-Ends, run_hook-Ends,
}

-- The calls that send, where a closed connection is met with one answer fewer foreseen.
module _ (n : ℕ) (closed : M ⊤)
    (less : (w : World)
      → length w.send_outcomes < n
      → FuelLeft (closed w).0 × (length (closed w).1.send_outcomes ≤ n)) where
  call_with-Ends :
      (s : RealtimeAcknowledgementStatus) (h : Hook) (r : Response) → Ends n (call_with s h r)
  unfolding call_with
  call_with-Ends s h r = record { at = λ w b. ground (arith, (run_hook-Ends h r).at w b) }

  receive-Ends : (p : ℕ) (s : RealtimeAcknowledgementStatus) (h : Hook) → Ends n (receive p s h)
  unfolding receive
  receive-Ends p s h = record {
    at = λ w b. grind (arith, λ (r : Response). (call_with-Ends s h r).at w b);
  }

  answered :
      (m : Message) (w : World) (os : List SendOutcome)
      → length os ≤ n
      → let r = answer closed m (next_outcome os) (record w { send_outcomes = rest_of os }) in
        FuelLeft r.0 × (length r.1.send_outcomes ≤ n)
  unfolding answer
  answered m w [] h = (tt, omega arith)
  answered m w (SendOutcome.sent ∷ os) h = (tt, omega arith)
  answered m w (SendOutcome.closed_error ∷ os) h =
      less (record w { send_outcomes = os }) (omega arith)
  answered m w (SendOutcome.closed_ok ∷ os) h = (tt, omega arith)

  send_message-Ends : (m : Message) → Ends n (send_message closed m)
  unfolding send_message
  send_message-Ends m = record { at = λ w h. ground (arith, answered m w w.send_outcomes h) }

  send-Ends : (m : Message) → Ends n (send closed m)
  unfolding send
  send-Ends m = record { at = λ w h. ground (arith, (send_message-Ends m).at w h) }

  push_send-Ends : (p : ℕ) → Ends n (push_send closed p)
  unfolding push_send
  push_send-Ends p = record {
    at = λ w h. ground (arith, (Ends-bind (register-Ends p) send-Ends).at w h);
  }

  ruleset send_rules = (step_rules, receive-Ends, send-Ends, push_send-Ends, send_message-Ends)

  resend-Ends : (p : ℕ) → Ends n (resend closed p)
  unfolding resend
  resend-Ends p = search send_rules

  unsubscribe-Ends : (c : ℕ) → Ends n (unsubscribe closed c)
  unfolding unsubscribe
  unsubscribe-Ends c = search send_rules depth 20

  leave_open_topic-Ends : (topic : String) → Ends n (leave_open_topic closed topic)
  unfolding leave_open_topic
  leave_open_topic-Ends topic = record { at = λ w h. (Ends-for_each _ unsubscribe-Ends).at w h }

  rejoin-Ends : (c : ℕ) → Ends n (rejoin closed c)
  unfolding rejoin
  rejoin-Ends c = record {
    at = λ w h. ground (
      arith,
      (Ends-bind
            (Ends-bind (leave_open_topic-Ends (w.channel_at c).topic)
              (λ _. set_state-Ends c ChannelStates.joining))
            (λ _. resend-Ends (w.channel_at c).join_push)).at
          w h,
    );
  }

  flush_send_buffer-Ends : Ends n (flush_send_buffer closed)
  unfolding flush_send_buffer
  flush_send_buffer-Ends = record {
    at = λ w h. ground (
      arith,
      (Ends-bind (Ends-for_each w.send_buffer send_message-Ends)
            (λ _. modify-Ends (λ v. record v { send_buffer = [] }) (λ v. refl))).at
          w h,
    );
  }

  on_connect-Ends : Ends n (on_connect closed)
  unfolding on_connect
  on_connect-Ends = Ends-bind restart_tasks-Ends (λ _. flush_send_buffer-Ends)

  attempt-Ends : Ends n (attempt closed)
  unfolding attempt
  attempt-Ends = record {
    at = λ w h. ground (
      arith,
      on_connect-Ends.at (record w { is_connected = true; dial_outcomes = rest_of w.dial_outcomes })
          h,
    );
  }

  connect_loop-Ends : (left retries backoff : ℕ) → Ends n (connect_loop closed left retries backoff)
  unfolding connect_loop
  connect_loop-Ends zero retries backoff = record { at = λ w h. ground arith }
  connect_loop-Ends (suc left) retries backoff = record {
    at = λ w h. grind (
      arith,
      attempt-Ends.at w h,
      (connect_loop-Ends left (retries + 1) (next_backoff backoff)).at,
    );
  }

  connect-Ends : Ends n (connect closed)
  unfolding connect
  connect-Ends = record {
    at = λ w h. ground (arith, (connect_loop-Ends w.max_retries 0 w.initial_backoff).at w h);
  }

  reconnect-Ends : Ends n (reconnect closed)
  unfolding reconnect
  reconnect-Ends =
      Ends-bind (modify-Ends (λ w. record w { is_connected = false }) (λ w. refl)) (λ _.
        Ends-bind connect-Ends (λ _. Ends-bind (Ends-gets (λ w. w.is_connected)) (λ connected.
          Ends-bind (Ends-gets values)
            (λ topics. Ends-when connected (Ends-for_each topics rejoin-Ends)))))

  on_connect_error-Ends : Ends n (on_connect_error closed)
  unfolding on_connect_error
  on_connect_error-Ends = record { at = λ w h. ground (arith, reconnect-Ends.at w h) }

on_closed-Ends : (fuel : ℕ) → Ends fuel (on_closed (suc fuel))
unfolding on_closed
on_closed-Ends zero = on_connect_error-Ends zero (on_closed 0) (λ w h. elim h [ ])
on_closed-Ends (suc fuel) =
    on_connect_error-Ends (suc fuel) (on_closed (suc fuel))
      (λ w h. let (left, fewer) = (on_closed-Ends fuel).at w (omega arith) in (left, omega arith))

closed_less :
    (fuel : ℕ) (w : World)
    → length w.send_outcomes < fuel
    → FuelLeft (on_closed fuel w).0 × (length (on_closed fuel w).1.send_outcomes ≤ fuel)
closed_less zero w h = elim h [ ]
closed_less (suc fuel) w h =
    let (left, fewer) = (on_closed-Ends fuel).at w (omega arith) in (left, omega arith)

not_out :
    {A : Type 0} {fuel : ℕ} {m : M A} (w : World)
    → Ends fuel m
    → length w.send_outcomes ≤ fuel
    → (m w).0 ≢ raises out_of_fuel
not_out {m} w ends h e = absurd (left_of (m w).0 (ends.at w h).0 e)
  where
    left_of : {A : Type 0} (r : Outcome A) → FuelLeft r → r ≡ raises out_of_fuel → ⊥
    left_of (returns a) l e = cc e
    left_of (raises x) l e = l (cc e)

-- With at least as much fuel as the socket has answers foreseen, no send, connect, rejoin or
-- unsubscribe runs out of fuel, however many of the answers report a closed connection.
pub enough_fuel :
    (fuel : ℕ) (w : World)
    → length w.send_outcomes ≤ fuel
    → let closed = on_closed fuel in
      ((m : Message) → (send closed m w).0 ≢ raises out_of_fuel)
      × ((connect closed w).0 ≢ raises out_of_fuel)
      × ((c : ℕ) → (rejoin closed c w).0 ≢ raises out_of_fuel)
      × ((c : ℕ) → (unsubscribe closed c w).0 ≢ raises out_of_fuel)
enough_fuel fuel w h =
    let less = closed_less fuel in
    (
      λ m. not_out w (send-Ends fuel (on_closed fuel) less m) h,
      not_out w (connect-Ends fuel (on_closed fuel) less) h,
      λ c. not_out w (rejoin-Ends fuel (on_closed fuel) less c) h,
      λ c. not_out w (unsubscribe-Ends fuel (on_closed fuel) less c) h,
    )
