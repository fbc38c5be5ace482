-- ===== src/Async/Alone/Tasks.antt =====
-- The tasks of an event loop of realtime/_async, each run to its end before the next one starts.
use realtime_py.Prelude.{
  ℕ, ◌≡◌, ◌&&◌, refl, ap, ◌∙◌, String, Bool, true, false, Option, none, [], ◌∷◌, ◌++◌, max,
  is_empty,
}
use realtime_py.Prelude.Dict.{Dict, contains, get_or}
use realtime_py.Types.{Json, ChannelStates}
use realtime_py.World.{World, M, ⊤, Outcome, returns, raises, continue, gets, modify, pure}
use realtime_py.World.Keeps.{Keeps}
use realtime_py.Channel.{in_state, schedule_rejoin}
use realtime_py.Socket
use realtime_py.Socket.{make_ref, values}
use realtime_py.Subscription
use realtime_py.Client
use realtime_py.Push
use realtime_py.Client.{heartbeat_message}
use realtime_py.Async.{Co, lift, bind, run, run-bind, await, skip, when, ◌>>=◌, ◌>>◌}
use realtime_py.Async.Calls.{slept_for, on_closed}
use realtime_py.Async.Methods.{
  close, join, send_broadcast, send_presence, track, untrack, rejoin_until_connected,
  heartbeat_round, remove_channel, remove_all_channels, send_token, set_auth, task,
}
use realtime_py.Async.Alone.{Alone, Alone-lift, Alone-bind, Alone-read, Alone-when, Alone-await}
use realtime_py.Async.Alone.Loops.{Listed, Listed-Steady, Alone-for_channels}
use realtime_py.Async.Alone.Sending.{
  Alone-send, Alone-push_send, Alone-unsubscribe, Alone-rejoin, Alone-connect,
}
use realtime_py.Async.Alone.Methods.{Alone-subscribe, Alone-push}
use realtime_py.Async.Alone.Reconnecting.{Alone-on_connect_error, Alone-on_closed}
use realtime_py.Stable.Sends.{Keeps-unsubscribe}
use realtime_py.Stable.Connects.{Keeps-on_closed}
use realtime_py.Stable.Pushes.{Keeps-token}
use realtime_py.Stable.Run.{
  Action, creates, connects, closes, removes_all, heartbeats, loses_connection, subscribes, pushes,
  broadcasts, tracks, untracks, joins, unsubscribes, removes, rejoins, listens_broadcast,
  listens_postgres, listens_system, listens_sync, listens_join, listens_leave, registers, sends,
  times_out, sets_auth, receives, act,
}

Alone-closing : (b : Bool) → Alone (when b await >> lift Client.close) Client.close
unfolding run bind Client.close
Alone-closing true = Alone-await (Alone-lift Client.close)
Alone-closing false = record { runs = λ w. refl }

Alone-close : Alone close Client.close
unfolding close
Alone-close = Alone-read (λ w. w.is_connected) (λ _. Client.close) Alone-closing

module _ (closed : Co ⊤) (call : M ⊤) (same : Alone closed call) where
  Alone-join : (c : ℕ) → Alone (join closed c) (Subscription.join call c)
  unfolding join Subscription.join
  Alone-join c =
      Alone-bind (Alone-lift (gets (λ w. w.channel_at c)))
        (λ ch. Alone-bind (Alone-lift make_ref) (λ ref. Alone-send closed call same _))

  Alone-send_broadcast :
      (c : ℕ) (event : String) (body : Json)
      → Alone (send_broadcast closed c event body) (Subscription.send_broadcast call c event body)
  unfolding send_broadcast Subscription.send_broadcast
  Alone-send_broadcast c event body =
      Alone-bind (Alone-push closed call same c _ _ none) (λ _. Alone-lift (pure tt))

  Alone-send_presence :
      (c : ℕ) (event : String) (body : Json)
      → Alone (send_presence closed c event body) (Subscription.send_presence call c event body)
  unfolding send_presence Subscription.send_presence
  Alone-send_presence c event body =
      Alone-bind (Alone-push closed call same c _ _ none) (λ _. Alone-lift (pure tt))

  Alone-rejoin_until_connected :
      (c : ℕ) → Alone (rejoin_until_connected closed c) (Subscription.rejoin_until_connected call c)
  unfolding rejoin_until_connected Subscription.rejoin_until_connected
  Alone-rejoin_until_connected c = Alone-bind (Alone-lift (schedule_rejoin c)) (λ _.
      Alone-bind (Alone-lift (gets (λ w. w.is_connected)))
        (λ connected. Alone-when connected (Alone-rejoin closed call same c)))

  Alone-sleep :
      Alone
        (lift (gets (λ w. max w.hb_interval 15000)) >>= λ n. lift (slept_for n) >> await)
        (modify (λ w. record w { slept = w.slept ++ (max w.hb_interval 15000) ∷ [] }))
  unfolding run bind slept_for
  Alone-sleep = record { runs = λ w. refl }

  Alone-heartbeat_round : Alone (heartbeat_round closed) (Client.heartbeat_round call)
  unfolding heartbeat_round Client.heartbeat_round
  Alone-heartbeat_round =
      Alone-bind (Alone-send closed call same heartbeat_message) (λ _. Alone-sleep)

  Alone-remove_channel : (c : ℕ) → Alone (remove_channel closed c) (Client.remove_channel call c)
  unfolding remove_channel Client.remove_channel
  Alone-remove_channel c = Alone-bind (Alone-lift (gets (λ w. w))) (λ w.
      Alone-bind
        (Alone-when (contains (w.channel_at c).topic w.channels)
          (Alone-unsubscribe closed call same (get_or (w.channel_at c).topic c w.channels)))
        (λ _.
          Alone-bind (Alone-lift (gets (λ w. is_empty w.channels)))
            (λ empty. Alone-when empty Alone-close)))

  module _ (kept : (d : Dict ℕ) → Keeps (Listed d) call) where
    Alone-remove_all_channels : Alone (remove_all_channels closed) (Client.remove_all_channels call)
    unfolding remove_all_channels Client.remove_all_channels
    Alone-remove_all_channels =
        Alone-bind
          (Alone-for_channels (Alone-unsubscribe closed call same)
            (λ d c. Keeps-unsubscribe call (kept d) c))
          (λ _. Alone-close)

    Alone-set_auth :
        (new_token : Option String)
        → Alone (set_auth closed new_token) (Client.set_auth call new_token)
    unfolding set_auth Client.set_auth send_token
    Alone-set_auth new_token =
        Alone-bind (Alone-lift (modify (λ w. record w { access_token = new_token }))) (λ _.
          Alone-for_channels
            (λ c.
              Alone-bind
                (Alone-lift (
                  gets (λ w.
                    let ch = w.channel_at c in ch.joined_once && in_state ChannelStates.joined ch)))
                (λ joined. Alone-when joined (
                  Alone-bind (Alone-push closed call same c _ _ none) (λ _. Alone-lift (pure tt)))))
            (λ d c. Keeps-token call (kept d) new_token c))

store_of : {A : Type 0} {c : Co A} {m : M A} → Alone c m → (w : World) → (run c w).1 ≡ (m w).1
store_of a w = ap (λ x. x.1) (a.runs w)

-- A call whose result is dropped.
store_then :
    {A : Type 0} {c : Co A} {m : M A} → Alone c m → (w : World) → (run (c >> skip) w).1 ≡ (m w).1
unfolding run
store_then {A} {c} {m} a w =
    ap (λ x. x.1) (run-bind (λ _. skip) c w) ∙ dropped (run c w) ∙ store_of a w
  where
    dropped : (x : Outcome A × World) → (continue (λ _. run skip) x).1 ≡ x.1
    dropped (returns a, v) = refl
    dropped (raises e, v) = refl

-- A task that no other interrupts leaves the store that the call leaves.
pub task_alone : (fuel : ℕ) (a : Action) (w : World) → (run (task fuel a) w).1 ≡ act fuel a w
unfolding run track untrack Subscription.track Subscription.untrack
task_alone fuel a w =
    let closed = on_closed fuel in
    let call = Socket.on_closed fuel in
    let same : Alone (on_closed fuel) (Socket.on_closed fuel) = Alone-on_closed fuel in
    let kept : (d : Dict ℕ) → Keeps (Listed d) (Socket.on_closed fuel) =
      λ d. Keeps-on_closed fuel in
    elim a as (λ b. (run (task fuel b) w).1 ≡ act fuel b w) [
      | creates name params ↦ store_then (Alone-lift (Client.channel name params)) w
      | connects ↦ store_of (Alone-connect closed call same) w
      | closes ↦ store_of Alone-close w
      | removes_all ↦ store_of (Alone-remove_all_channels closed call same kept) w
      | heartbeats ↦ store_of (Alone-heartbeat_round closed call same) w
      | loses_connection ↦ store_of (Alone-on_connect_error closed call same kept) w
      | subscribes c f ↦ store_of (Alone-subscribe closed call same c f) w
      | pushes c event payload timeout ↦
          store_then (Alone-push closed call same c event payload timeout) w
      | broadcasts c event body ↦ store_of (Alone-send_broadcast closed call same c event body) w
      | tracks c user_status ↦
          store_of (Alone-send_presence closed call same c "track" user_status) w
      | untracks c ↦ store_of (Alone-send_presence closed call same c "untrack" "{}") w
      | joins c ↦ store_of (Alone-join closed call same c) w
      | unsubscribes c ↦ store_of (Alone-unsubscribe closed call same c) w
      | removes c ↦ store_of (Alone-remove_channel closed call same c) w
      | rejoins c ↦ store_of (Alone-rejoin_until_connected closed call same c) w
      | listens_broadcast c event f ↦ refl
      | listens_postgres c event f table schema filter ↦ refl
      | listens_system c f ↦ refl
      | listens_sync c f ↦ refl
      | listens_join c f ↦ refl
      | listens_leave c f ↦ refl
      | registers p status hook ↦ refl
      | sends p ↦ store_of (Alone-push_send closed call same p) w
      | times_out p ↦ store_of (Alone-await (Alone-lift (Push.timeout_elapsed p))) w
      | sets_auth new_token ↦ store_of (Alone-set_auth closed call same kept new_token) w
      | receives message ↦ refl
    ]
