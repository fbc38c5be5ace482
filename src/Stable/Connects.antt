-- ===== src/Stable/Connects.antt =====
-- Steady invariants and the connecting part of realtime/_async/client.py.
use realtime_py.Prelude.{
  ℕ, zero, suc, ◌+◌, refl, ◌&&◌, is_empty, true, false, not, [], ◌∷◌, ◌++◌, if◌then◌else◌,
}
use realtime_py.World.{World, gave_up, out_of_fuel, M, ⊤, Outcome, returns, raises, dial_failed}
use realtime_py.World.Keeps.{
  Keeps-test, Keeps, Keeps-bind, Keeps-pure, Keeps-gets, Keeps-when, Keeps-for_each, Keeps-raise,
}
use realtime_py.Socket.{
  values, rest_of, wait_time, next_backoff, flush_send_buffer, on_connect, attempt, connect_loop,
  connect, reconnect, on_connect_error, on_closed, dials,
}
use realtime_py.Stable.{Same-rest, Steady}
use realtime_py.Stable.Quiet.{Keeps-modify}
use realtime_py.Socket.{gives_up}
use realtime_py.Stable.Sends.{
  Keeps-after_answer, Keeps-send_message, Keeps-rejoin, Keeps-restart_tasks,
}

module _ {P : World → Type 0} ⦃s : Steady P⦄ (closed : M ⊤) (closed_keeps : Keeps P closed) where
  Keeps-flush_send_buffer : Keeps P (flush_send_buffer closed)
  unfolding flush_send_buffer
  Keeps-flush_send_buffer =
      Keeps-test (λ w. w.is_connected && not (is_empty w.send_buffer))
        (λ w.
          Keeps-bind (Keeps-for_each w.send_buffer (Keeps-send_message closed closed_keeps)) (λ _.
            Keeps-modify (λ v. record v { send_buffer = [] })
              (λ v. Same-rest v _ refl refl refl refl)))
        (λ _. Keeps-pure tt)

  Keeps-on_connect : Keeps P (on_connect closed)
  unfolding on_connect
  Keeps-on_connect = Keeps-bind Keeps-restart_tasks (λ _. Keeps-flush_send_buffer)

  Keeps-attempt : Keeps P (attempt closed)
  unfolding attempt
  Keeps-attempt =
      Keeps-test (λ w. dials w.dial_outcomes)
        (λ _.
          Keeps-after_answer closed closed_keeps
            (λ v. record v { is_connected = true; dial_outcomes = rest_of v.dial_outcomes })
            (λ v. Same-rest v _ refl refl refl refl) Keeps-on_connect)
        (λ _.
          Keeps-after_answer closed closed_keeps
            (λ v. record v { dial_outcomes = rest_of v.dial_outcomes })
            (λ v. Same-rest v _ refl refl refl refl) (Keeps-raise {A = ⊤} dial_failed))

  Keeps-connect_loop :
      (left retries backoff : ℕ) → Keeps P (connect_loop closed left retries backoff)
  unfolding connect_loop
  Keeps-connect_loop zero retries backoff = Keeps-raise gave_up
  Keeps-connect_loop (suc left) retries backoff = record {
    at = λ w h.
        by_outcome (Keeps-connect_loop left (retries + 1) (next_backoff backoff)) (attempt closed w)
          (Keeps-attempt.at w h);
  }
    where
      by_outcome :
          Keeps P (connect_loop closed left (retries + 1) (next_backoff backoff))
          → (o : Outcome ⊤ × World) → P o.1
          → P
              (let (r, w') = o in
                elim r as (λ _. Outcome ⊤ × World) [
                  | returns _ ↦ (returns tt, w')
                  | raises e ↦
                      if gives_up retries e w'
                      then (raises e, w')
                      else connect_loop closed left
                          (retries + 1)
                          (next_backoff backoff)
                          (record w' { slept = w'.slept ++ wait_time backoff retries ∷ [] })
                ]).1
      by_outcome k (returns _, w') h = h
      by_outcome k (raises e, w') h =
          (Keeps-test (gives_up retries e) (λ _. Keeps-raise {A = ⊤} e)
              (λ _.
                Keeps-after_answer closed closed_keeps
                  (λ v. record v { slept = v.slept ++ wait_time backoff retries ∷ [] })
                  (λ v. Same-rest v _ refl refl refl refl) k)).at
            w' h

  pub Keeps-connect : Keeps P (connect closed)
  unfolding connect
  Keeps-connect =
      Keeps-test (λ w. w.is_connected) (λ _. Keeps-pure tt)
        (λ w. Keeps-connect_loop w.max_retries 0 w.initial_backoff)

  Keeps-reconnect : Keeps P (reconnect closed)
  unfolding reconnect
  Keeps-reconnect =
      Keeps-bind
        (Keeps-modify (λ w. record w { is_connected = false })
          (λ w. Same-rest w _ refl refl refl refl))
        (λ _. Keeps-bind Keeps-connect (λ _.
          Keeps-bind (Keeps-gets (λ w. w.is_connected)) (λ connected.
            Keeps-bind (Keeps-gets values) (λ topics.
              Keeps-when connected (Keeps-for_each topics (Keeps-rejoin closed closed_keeps))))))

  pub Keeps-on_connect_error : Keeps P (on_connect_error closed)
  unfolding on_connect_error
  Keeps-on_connect_error =
      Keeps-test (λ w. w.auto_reconnect) (λ _. Keeps-reconnect) (λ _. Keeps-pure tt)

module _ {P : World → Type 0} ⦃s : Steady P⦄ where
  pub Keeps-on_closed : (fuel : ℕ) → Keeps P (on_closed fuel)
  unfolding on_closed
  Keeps-on_closed zero = Keeps-raise out_of_fuel
  Keeps-on_closed (suc fuel) = Keeps-on_connect_error (on_closed fuel) (Keeps-on_closed fuel)
