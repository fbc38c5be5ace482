-- ===== src/Async/Tasks.antt =====
-- Stable invariants and the tasks that the calls of `Action` make.
use realtime_py.Prelude.{ℕ, refl, String, Option, none, some}
use realtime_py.Types.{Json, Payload}
use realtime_py.World.{World, assertion_error, M, ⊤, raise, pure}
use realtime_py.World.Keeps.{Keeps, Keeps-raise, Keeps-pure, Keeps-gets}
use realtime_py.Async.{Co}
use realtime_py.Async.Calls.{on_closed}
use realtime_py.Async.Safety.{Safe, Safe-lift, Safe-bind, Safe-skip, Safe-await, safe_rules}
use realtime_py.Async.Kept.{
  Keeps-slept_for, Safe-for_channels, Safe-send, Safe-push_send, Safe-unsubscribe, Safe-rejoin,
  Safe-connect, Safe-on_connect_error, Safe-on_closed,
}
use realtime_py.Async.Methods.{
  close, subscribe, push_out, push_now, push, join, send_broadcast, send_presence, track, untrack,
  rejoin_until_connected, heartbeat_round, remove_channel, remove_all_channels, send_token,
  set_auth, task,
}
use realtime_py.Stable.{Same-rest, Stable, Stable-Steady}
use realtime_py.Stable.Quiet.{Keeps-modify, Keeps-new_push, Keeps-schedule_rejoin}
use realtime_py.Stable.Hooks.{Keeps-receive, Keeps-timeout_elapsed}
use realtime_py.Stable.Sends.{Keeps-make_ref}
use realtime_py.Stable.Handled.{Keeps-dispatch}
use realtime_py.Stable.Pushes.{Keeps-push_later}
use realtime_py.Stable.Calls.{
  Keeps-on_broadcast, Keeps-on_postgres_changes, Keeps-on_system, Keeps-on_presence_sync,
  Keeps-on_presence_join, Keeps-on_presence_leave, Keeps-close, Keeps-prepare_join,
}
use realtime_py.Stable.Run.{
  Keeps-channel, Action, creates, connects, closes, removes_all, heartbeats, loses_connection,
  subscribes, pushes, broadcasts, tracks, untracks, joins, unsubscribes, removes, rejoins,
  listens_broadcast, listens_postgres, listens_system, listens_sync, listens_join, listens_leave,
  registers, sends, times_out, sets_auth, receives,
}

Keeps-referenced :
    {P : World → Type 0} (p : ℕ) (ref : Option String)
    → Keeps P (elim ref as (λ _. M ℕ) [ none ↦ raise assertion_error | some _ ↦ pure p ])
Keeps-referenced p none = Keeps-raise assertion_error
Keeps-referenced p (some ref) = Keeps-pure p

module _ {P : World → Type 0} ⦃s : Stable P⦄ where
  Safe-close : Safe P close
  unfolding close
  Safe-close = search (safe_rules, Keeps-gets, Keeps-close)

module _ {P : World → Type 0} ⦃s : Stable P⦄ (closed : Co ⊤) (closed_safe : Safe P closed) where
  ruleset call_rules = (
    safe_rules, Keeps-gets, Keeps-raise, Keeps-pure, Keeps-make_ref, Keeps-new_push,
    Keeps-schedule_rejoin, Keeps-prepare_join, Keeps-push_later, Keeps-close, Keeps-slept_for,
    Safe-send, Safe-push_send, Safe-unsubscribe, Safe-rejoin, Safe-connect, Safe-close,
    Safe-for_channels,
  )

  Safe-subscribe : (c : ℕ) (f : Option ℕ) → Safe P (subscribe closed c f)
  unfolding subscribe
  Safe-subscribe c f = search call_rules depth 20

  Safe-push_out : (p : ℕ) → Safe P (push_out closed p)
  unfolding push_out
  Safe-push_out p = Safe-bind (Safe-push_send closed closed_safe p) (λ _.
      Safe-bind (Safe-lift (Keeps-gets (λ w. (w.push_at p).ref)))
        (λ ref. Safe-lift (Keeps-referenced p ref)))

  Safe-push_now :
      (c : ℕ) (event : String) (payload : Payload) (timeout : Option ℕ)
      → Safe P (push_now closed c event payload timeout)
  unfolding push_now
  Safe-push_now c event payload timeout = search (call_rules, Safe-push_out) depth 12

  Safe-push :
      (c : ℕ) (event : String) (payload : Payload) (timeout : Option ℕ)
      → Safe P (push closed c event payload timeout)
  unfolding push
  Safe-push c event payload timeout = search (call_rules, Safe-push_now) depth 12

  Safe-join : (c : ℕ) → Safe P (join closed c)
  unfolding join
  Safe-join c = search call_rules depth 12

  Safe-send_broadcast :
      (c : ℕ) (event : String) (body : Json) → Safe P (send_broadcast closed c event body)
  unfolding send_broadcast
  Safe-send_broadcast c event body = search (call_rules, Safe-push) depth 12

  Safe-send_presence :
      (c : ℕ) (event : String) (body : Json) → Safe P (send_presence closed c event body)
  unfolding send_presence
  Safe-send_presence c event body = search (call_rules, Safe-push) depth 12

  Safe-rejoin_until_connected : (c : ℕ) → Safe P (rejoin_until_connected closed c)
  unfolding rejoin_until_connected
  Safe-rejoin_until_connected c = search call_rules depth 12

  Safe-heartbeat_round : Safe P (heartbeat_round closed)
  unfolding heartbeat_round
  Safe-heartbeat_round = search call_rules depth 12

  Safe-remove_channel : (c : ℕ) → Safe P (remove_channel closed c)
  unfolding remove_channel
  Safe-remove_channel c = search call_rules depth 12

  Safe-remove_all_channels : Safe P (remove_all_channels closed)
  unfolding remove_all_channels
  Safe-remove_all_channels = search call_rules depth 12

  Safe-send_token : (c : ℕ) (new_token : Option String) → Safe P (send_token closed new_token c)
  unfolding send_token
  Safe-send_token c new_token = search (call_rules, Safe-push) depth 12

  Safe-set_auth : (new_token : Option String) → Safe P (set_auth closed new_token)
  unfolding set_auth
  Safe-set_auth new_token =
      Safe-bind
        (Safe-lift (
          Keeps-modify (λ w. record w { access_token = new_token })
            (λ w. Same-rest w _ refl refl refl refl)))
        (λ _. Safe-for_channels (send_token closed new_token) (λ c. Safe-send_token c new_token))

module _ {P : World → Type 0} ⦃s : Stable P⦄ where
  pub task-Safe : (fuel : ℕ) (a : Action) → Safe P (task fuel a)
  unfolding track untrack
  task-Safe fuel a =
      let closed = on_closed fuel in
      let k : Safe P (on_closed fuel) = Safe-on_closed fuel in
      elim a as (λ b. Safe P (task fuel b)) [
        | creates name params ↦ Safe-bind (Safe-lift (Keeps-channel P name params)) (λ _. Safe-skip)
        | connects ↦ Safe-connect closed k
        | closes ↦ Safe-close
        | removes_all ↦ Safe-remove_all_channels closed k
        | heartbeats ↦ Safe-heartbeat_round closed k
        | loses_connection ↦ Safe-on_connect_error closed k
        | subscribes c f ↦ Safe-subscribe closed k c f
        | pushes c event payload timeout ↦
            Safe-bind (Safe-push closed k c event payload timeout) (λ _. Safe-skip)
        | broadcasts c event body ↦ Safe-send_broadcast closed k c event body
        | tracks c user_status ↦ Safe-send_presence closed k c "track" user_status
        | untracks c ↦ Safe-send_presence closed k c "untrack" "{}"
        | joins c ↦ Safe-join closed k c
        | unsubscribes c ↦ Safe-unsubscribe closed k c
        | removes c ↦ Safe-remove_channel closed k c
        | rejoins c ↦ Safe-rejoin_until_connected closed k c
        | listens_broadcast c event f ↦ Safe-lift (Keeps-on_broadcast c event f)
        | listens_postgres c event f table schema filter ↦
            Safe-lift (Keeps-on_postgres_changes c event f table schema filter)
        | listens_system c f ↦ Safe-lift (Keeps-on_system c f)
        | listens_sync c f ↦ Safe-lift (Keeps-on_presence_sync c f)
        | listens_join c f ↦ Safe-lift (Keeps-on_presence_join c f)
        | listens_leave c f ↦ Safe-lift (Keeps-on_presence_leave c f)
        | registers p status hook ↦ Safe-lift (Keeps-receive p status hook)
        | sends p ↦ Safe-push_send closed k p
        | times_out p ↦ Safe-bind Safe-await (λ _. Safe-lift (Keeps-timeout_elapsed p))
        | sets_auth new_token ↦ Safe-set_auth closed k new_token
        | receives message ↦ Safe-lift (Keeps-dispatch message)
      ]
