-- ===== src/Stable/Run.antt =====
-- The calls of the user, the tasks and the server on the client of realtime/_async, in any order, and
-- what is stable under them.
use realtime_py.Prelude.{ℕ, refl, ap, String, Option}
use realtime_py.Types.{Json, RealtimePostgresChangesListenEvent, Payload, ServerMessage}
use realtime_py.World.{World, ChannelConfig, Hook, M}
use realtime_py.World.Keeps.{Keeps}
use realtime_py.Types.{RealtimeAcknowledgementStatus}
use realtime_py.Channel.{
  on_broadcast, on_postgres_changes, on_system, on_presence_sync, on_presence_join,
  on_presence_leave,
}
use realtime_py.Push.{receive, timeout_elapsed}
use realtime_py.Socket.{push_send, unsubscribe, connect, on_connect_error, on_closed}
use realtime_py.Subscription.{
  subscribe, push, join, send_broadcast, track, untrack, rejoin_until_connected,
}
use realtime_py.Messages.{dispatch}
use realtime_py.Client.{
  channel, close, heartbeat_round, remove_channel, remove_all_channels, set_auth,
}
use realtime_py.Client.Created.{new_channel, channel_lem}
use realtime_py.Stable.{Stable, Same, with_channel, Stable-Steady}
use realtime_py.Stable.Hooks.{Keeps-receive, Keeps-timeout_elapsed}
use realtime_py.Stable.Sends.{Keeps-push_send, Keeps-unsubscribe}
use realtime_py.Stable.Connects.{Keeps-connect, Keeps-on_connect_error, Keeps-on_closed}
use realtime_py.Stable.Handled.{Keeps-dispatch}
use realtime_py.Stable.Pushes.{Keeps-push}
use realtime_py.Stable.Calls.{
  Keeps-on_broadcast, Keeps-on_postgres_changes, Keeps-on_system, Keeps-on_presence_sync,
  Keeps-on_presence_join, Keeps-on_presence_leave, Keeps-close, Keeps-subscribe, Keeps-join,
  Keeps-send_broadcast, Keeps-track, Keeps-untrack, Keeps-rejoin_until_connected,
  Keeps-heartbeat_round, Keeps-remove_channel, Keeps-remove_all_channels, Keeps-set_auth,
}

-- A call of the user, of a task, or of the loop on the messages of the server.
pub data Action : Type 0 where
  creates : String → Option ChannelConfig → Action
  connects closes removes_all heartbeats loses_connection : Action
  subscribes : ℕ → Option ℕ → Action
  pushes : ℕ → String → Payload → Option ℕ → Action
  broadcasts : ℕ → String → Json → Action
  tracks : ℕ → Json → Action
  untracks joins unsubscribes removes rejoins : ℕ → Action
  listens_broadcast : ℕ → String → ℕ → Action
  listens_postgres :
      ℕ
      → RealtimePostgresChangesListenEvent
      → ℕ
      → Option String
      → Option String
      → Option String
      → Action
  listens_system listens_sync listens_join listens_leave : ℕ → ℕ → Action
  registers : ℕ → RealtimeAcknowledgementStatus → Hook → Action
  sends times_out : ℕ → Action
  sets_auth : Option String → Action
  receives : ServerMessage → Action

-- What the call does, with so much fuel for closed connections.
abbrev pub act : ℕ → Action → World → World
act fuel (creates name params) w = (channel name params w).1
act fuel connects w = (connect (on_closed fuel) w).1
act fuel closes w = (close w).1
act fuel removes_all w = (remove_all_channels (on_closed fuel) w).1
act fuel heartbeats w = (heartbeat_round (on_closed fuel) w).1
act fuel loses_connection w = (on_connect_error (on_closed fuel) w).1
act fuel (subscribes c f) w = (subscribe (on_closed fuel) c f w).1
act fuel (pushes c event payload timeout) w = (push (on_closed fuel) c event payload timeout w).1
act fuel (broadcasts c event body) w = (send_broadcast (on_closed fuel) c event body w).1
act fuel (tracks c user_status) w = (track (on_closed fuel) c user_status w).1
act fuel (untracks c) w = (untrack (on_closed fuel) c w).1
act fuel (joins c) w = (join (on_closed fuel) c w).1
act fuel (unsubscribes c) w = (unsubscribe (on_closed fuel) c w).1
act fuel (removes c) w = (remove_channel (on_closed fuel) c w).1
act fuel (rejoins c) w = (rejoin_until_connected (on_closed fuel) c w).1
act fuel (listens_broadcast c event f) w = (on_broadcast c event f w).1
act fuel (listens_postgres c event f table schema filter) w =
    (on_postgres_changes c event f table schema filter w).1
act fuel (listens_system c f) w = (on_system c f w).1
act fuel (listens_sync c f) w = (on_presence_sync c f w).1
act fuel (listens_join c f) w = (on_presence_join c f w).1
act fuel (listens_leave c f) w = (on_presence_leave c f w).1
act fuel (registers p status h) w = (receive p status h w).1
act fuel (sends p) w = (push_send (on_closed fuel) p w).1
act fuel (times_out p) w = (timeout_elapsed p w).1
act fuel (sets_auth new_token) w = (set_auth (on_closed fuel) new_token w).1
act fuel (receives message) w = (dispatch message w).1

-- Any calls, in any order.
pub data Reachable (fuel : ℕ) (start : World) : World → Type 0 where
  here : Reachable fuel start start
  next : {w : World} → Reachable fuel start w → (a : Action) → Reachable fuel start (act fuel a w)

module _ (P : World → Type 0) ⦃s : Stable P⦄ where
  pub Keeps-channel :
      (name : String) (params : Option ChannelConfig) → Keeps P (channel name params)
  Keeps-channel name params = record {
    at = λ w h.
        let (_, at, channels, count, ref) = channel_lem name params w in
        let ch = new_channel name params w in
        let same : Same (with_channel ch w) (channel name params w).1 = record {
          ref = ref;
          channels = channels;
          next_channel = count;
          topic = λ c. ap (λ chs. (chs c).topic) at;
          waiting = λ c. ap (λ chs. (chs c).messages_waiting_for_ack) at;
        } in
        s.steady.rest (with_channel ch w) _ same (s.made ch w refl h);
  }

  after : {A : Type 0} {m : M A} → Keeps P m → (w : World) → P w → P (m w).1
  after k w h = k.at w h

  act_keeps : (fuel : ℕ) (a : Action) (w : World) → P w → P (act fuel a w)
  act_keeps fuel a w h =
      let closed = on_closed fuel in
      let k : Keeps P (on_closed fuel) = Keeps-on_closed fuel in
      elim a as (λ b. P (act fuel b w)) [
        | creates name params ↦ after (Keeps-channel name params) w h
        | connects ↦ after (Keeps-connect closed k) w h
        | closes ↦ after Keeps-close w h
        | removes_all ↦ after (Keeps-remove_all_channels closed k) w h
        | heartbeats ↦ after (Keeps-heartbeat_round closed k) w h
        | loses_connection ↦ after (Keeps-on_connect_error closed k) w h
        | subscribes c f ↦ after (Keeps-subscribe closed k c f) w h
        | pushes c event payload timeout ↦ after (Keeps-push closed k c event payload timeout) w h
        | broadcasts c event body ↦ after (Keeps-send_broadcast closed k c event body) w h
        | tracks c user_status ↦ after (Keeps-track closed k c user_status) w h
        | untracks c ↦ after (Keeps-untrack closed k c) w h
        | joins c ↦ after (Keeps-join closed k c) w h
        | unsubscribes c ↦ after (Keeps-unsubscribe closed k c) w h
        | removes c ↦ after (Keeps-remove_channel closed k c) w h
        | rejoins c ↦ after (Keeps-rejoin_until_connected closed k c) w h
        | listens_broadcast c event f ↦ after (Keeps-on_broadcast c event f) w h
        | listens_postgres c event f table schema filter ↦
            after (Keeps-on_postgres_changes c event f table schema filter) w h
        | listens_system c f ↦ after (Keeps-on_system c f) w h
        | listens_sync c f ↦ after (Keeps-on_presence_sync c f) w h
        | listens_join c f ↦ after (Keeps-on_presence_join c f) w h
        | listens_leave c f ↦ after (Keeps-on_presence_leave c f) w h
        | registers p status hook ↦ after (Keeps-receive p status hook) w h
        | sends p ↦ after (Keeps-push_send closed k p) w h
        | times_out p ↦ after (Keeps-timeout_elapsed p) w h
        | sets_auth new_token ↦ after (Keeps-set_auth closed k new_token) w h
        | receives message ↦ after (Keeps-dispatch message) w h
      ]

  -- What is stable and holds at the start holds after any calls.
  pub Reachable-keeps : {fuel : ℕ} {start w : World} → P start → Reachable fuel start w → P w
  Reachable-keeps h here = h
  Reachable-keeps h (next r a) = act_keeps _ a _ (Reachable-keeps h r)
