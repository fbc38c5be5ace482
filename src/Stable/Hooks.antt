-- ===== src/Stable/Hooks.antt =====
-- Stable invariants and the callbacks of a push, which realtime/_async/push.py runs.
use realtime_py.Prelude.{
  ℕ, refl, String, Bool, true, false, Option, none, some, List, [], if◌then◌else◌, is_empty,
}
use realtime_py.Prelude.Dict.{contains, erase}
use realtime_py.Types.{
  RealtimeAcknowledgementStatus, RealtimeSubscribeStates, PostgresRowChange,
  PostgresChangesCallback,
}
use realtime_py.World.{
  World, Hook, Response, nothing, run_unsubscribe, type_error, ⊤, Outcome, modify_channel,
  modify_push, set_channel, join_ok, join_timeout, leave_close, subscribe_ok, subscribe_error,
  subscribe_timeout, user_hook,
}
use realtime_py.World.Keeps.{
  Keeps, Keeps-bind, Keeps-test, Keeps-gets, Keeps-for_each, Keeps-if, Keeps-raise,
}
use realtime_py.Channel.{call_subscriber, on_subscribe_ok, bind_all, run_hook}
use realtime_py.Push.{
  receive, call_with, trigger, callbacks_of, forget, timeout_elapsed, add_callback, takes_response,
  status_eq,
}
use realtime_py.Stable.{Same-set_channel, Stable, Stable-Steady}
use realtime_py.Stable.Quiet.{
  Keeps-modify_channel, Keeps-modify_push, Keeps-spawn, Keeps-call_user, quiet_rules,
  Keeps-on_join_ok, Keeps-on_join_timeout, Keeps-on_close,
}

module _ {P : World → Type 0} ⦃s : Stable P⦄ where
  pub Keeps-call_subscriber :
      (f : Option ℕ) (state : RealtimeSubscribeStates) → Keeps P (call_subscriber f state)
  unfolding call_subscriber
  Keeps-call_subscriber none state = search quiet_rules
  Keeps-call_subscriber (some f) state = search quiet_rules

  Keeps-listeners :
      (c : ℕ) (callbacks : List PostgresChangesCallback)
      → Keeps P (modify_channel c (λ ch. record ch { postgres_changes_callbacks = callbacks }))
  Keeps-listeners c callbacks =
      Keeps-modify_channel c (λ ch. record ch { postgres_changes_callbacks = callbacks })
        (λ ch. refl) (λ ch. refl)

  pub Keeps-on_subscribe_ok :
      (c : ℕ) (f : Option ℕ) (xs : Option (List PostgresRowChange))
      → Keeps P (on_subscribe_ok c f xs)
  unfolding on_subscribe_ok
  Keeps-on_subscribe_ok c f xs =
      let servers : List PostgresRowChange = elim xs [ none ↦ [] | some xs ↦ xs ] in
      let bound = λ (w : World). bind_all (w.channel_at c).postgres_changes_callbacks servers in
      Keeps-test (λ w. is_empty servers)
        (λ w.
          Keeps-bind (Keeps-listeners c [])
            (λ _. Keeps-call_subscriber f RealtimeSubscribeStates.subscribed))
        (λ w.
          Keeps-test (λ v. (bound w).1)
            (λ _.
              Keeps-bind (Keeps-listeners c (bound w).0)
                (λ _. Keeps-call_subscriber f RealtimeSubscribeStates.subscribed))
            (λ _.
              Keeps-bind
                (Keeps-bind (Keeps-listeners c (bound w).0) (λ _. Keeps-spawn (run_unsubscribe c)))
                (λ _. Keeps-call_subscriber f RealtimeSubscribeStates.channel_error)))

  pub Keeps-run_hook : (h : Hook) (r : Response) → Keeps P (run_hook h r)
  unfolding run_hook
  Keeps-run_hook (join_ok c) r = Keeps-on_join_ok c
  Keeps-run_hook (join_timeout c) r = Keeps-on_join_timeout c
  Keeps-run_hook (leave_close c) r = Keeps-on_close c
  Keeps-run_hook (subscribe_ok c f) r = Keeps-on_subscribe_ok c f _
  Keeps-run_hook (subscribe_error f) r = Keeps-call_subscriber f _
  Keeps-run_hook (subscribe_timeout f) r = Keeps-call_subscriber f _
  Keeps-run_hook (user_hook f) r = Keeps-call_user _

  Keeps-call_with :
      (status : RealtimeAcknowledgementStatus) (h : Hook) (r : Response)
      → Keeps P (call_with status h r)
  unfolding call_with
  Keeps-call_with status h r =
      Keeps-if (takes_response status h) (Keeps-run_hook h r) (Keeps-raise type_error)

  Keeps-add_callback :
      (p : ℕ) (status : RealtimeAcknowledgementStatus) (h : Hook)
      → Keeps P (modify_push p (add_callback status h))
  Keeps-add_callback p status h = Keeps-modify_push p (add_callback status h)

  pub Keeps-receive :
      (p : ℕ) (status : RealtimeAcknowledgementStatus) (h : Hook) → Keeps P (receive p status h)
  unfolding receive
  Keeps-receive p status h = record { at = λ w b. (by_response (w.push_at p).received_resp).at w b }
    where
      by_response :
          (o : Option (RealtimeAcknowledgementStatus × Response))
          → Keeps P (λ w. elim o as (λ _. Outcome ⊤ × World) [
            | none ↦ modify_push p (add_callback status h) w
            | some (status', response) ↦
                if status_eq status' status
                then call_with status h response w
                else modify_push p (add_callback status h) w
          ])
      by_response none = Keeps-add_callback p status h
      by_response (some (status', response)) =
          Keeps-test (λ _. status_eq status' status) (λ _. Keeps-call_with status h response)
            (λ _. Keeps-add_callback p status h)

  pub Keeps-trigger :
      (p : ℕ) (status : RealtimeAcknowledgementStatus) (r : Response) → Keeps P (trigger p status r)
  unfolding trigger
  Keeps-trigger p status r =
      Keeps-bind (Keeps-modify_push p (λ ps. record ps { received_resp = some (status, r) })) (λ _.
        Keeps-bind (Keeps-gets (λ w. callbacks_of status (w.push_at p)))
          (λ hooks. Keeps-for_each hooks (λ h. Keeps-run_hook h r)))

  Keeps-forget : (c : ℕ) (o : Option String) → Keeps P (modify_channel c (forget o))
  Keeps-forget c none = Keeps-modify_channel c (forget none) (λ ch. refl) (λ ch. refl)
  Keeps-forget c (some ref) = record {
    at = λ w h. by_test w h (contains ref (w.channel_at c).messages_waiting_for_ack);
  }
    where
      by_test :
          (w : World) (h : P w) (b : Bool)
          → let ch = w.channel_at c in
            P (
              set_channel c
                (if b
                  then record ch {
                    messages_waiting_for_ack = erase ref ch.messages_waiting_for_ack;
                  }
                  else ch)
                w)
      by_test w h true = s.steady.settled c ref w h
      by_test w h false =
          s.steady.rest w _ (Same-set_channel c (w.channel_at c) w _ refl refl refl refl refl refl)
            h

  pub Keeps-timeout_elapsed : (p : ℕ) → Keeps P (timeout_elapsed p)
  unfolding timeout_elapsed
  Keeps-timeout_elapsed p =
      Keeps-bind (Keeps-trigger p RealtimeAcknowledgementStatus.timeout nothing)
        (λ _. Keeps-bind (Keeps-gets (λ w. w.push_at p)) (λ ps. Keeps-forget ps.channel ps.ref))
