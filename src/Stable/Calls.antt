-- ===== src/Stable/Calls.antt =====
-- Stable invariants and the methods of realtime/_async/channel.py and client.py that a user or a task
-- calls.
use realtime_py.Prelude.{
  ℕ, refl, String, true, not, Option, none, some, [], ◌∷◌, ◌++◌, max, is_empty,
}
use realtime_py.Prelude.Dict.{contains, get_or}
use realtime_py.Types.{Json, RealtimePostgresChangesListenEvent, Payload, json, wrapped_config}
use realtime_py.Types.ChannelEvents
use realtime_py.World.{World, subscribed_before, M, ⊤, modify_channel}
use realtime_py.World.Keeps.{
  Keeps, Keeps-bind, Keeps-pure, Keeps-gets, Keeps-when, Keeps-raise, Keeps-for_each,
}
use realtime_py.Channel.{
  on_broadcast, on_postgres_changes, on_system, on_presence_sync, on_presence_join,
  on_presence_leave,
}
use realtime_py.Push.{update_payload}
use realtime_py.Socket.{values}
use realtime_py.Subscription.{
  prepare_join, join_config, subscribe, join, send_broadcast, send_presence, track, untrack,
  rejoin_until_connected,
}
use realtime_py.Client.{
  close, heartbeat_message, heartbeat_round, remove_channel, remove_all_channels, set_auth,
}
use realtime_py.Stable.Pushes.{Keeps-push, Keeps-token}
use realtime_py.Stable.{Stable, Same, Same-rest, Same-set_channel, Stable-Steady}
use realtime_py.Stable.Quiet.{
  Keeps-modify, Keeps-modify_channel, Keeps-schedule_rejoin, quiet_rules,
}
use realtime_py.Stable.Hooks.{Keeps-receive}
use realtime_py.Stable.Sends.{Keeps-make_ref, Keeps-send, Keeps-unsubscribe, Keeps-rejoin}
use realtime_py.Stable.Connects.{Keeps-connect}

module _ {P : World → Type 0} ⦃s : Stable P⦄ where
  Keeps-Same : {A : Type 0} (m : M A) → ((w : World) → Same w (m w).1) → Keeps P m
  Keeps-Same m same = record { at = λ w h. s.steady.rest w (m w).1 (same w) h }

  pub Keeps-on_broadcast : (c : ℕ) (event : String) (f : ℕ) → Keeps P (on_broadcast c event f)
  unfolding on_broadcast
  Keeps-on_broadcast c event f =
      Keeps-Same (on_broadcast c event f)
        (λ w. Same-set_channel c _ w _ refl refl refl refl refl refl)

  pub Keeps-on_postgres_changes :
      (c : ℕ) (event : RealtimePostgresChangesListenEvent) (f : ℕ)
      (table schema filter : Option String)
      → Keeps P (on_postgres_changes c event f table schema filter)
  unfolding on_postgres_changes
  Keeps-on_postgres_changes c event f table schema filter =
      Keeps-Same (on_postgres_changes c event f table schema filter)
        (λ w. Same-set_channel c _ w _ refl refl refl refl refl refl)

  pub Keeps-on_system : (c f : ℕ) → Keeps P (on_system c f)
  unfolding on_system
  Keeps-on_system c f =
      Keeps-Same (on_system c f) (λ w. Same-set_channel c _ w _ refl refl refl refl refl refl)

  pub Keeps-on_presence_sync : (c f : ℕ) → Keeps P (on_presence_sync c f)
  unfolding on_presence_sync
  Keeps-on_presence_sync c f =
      Keeps-Same (on_presence_sync c f)
        (λ w. Same-set_channel c _ w _ refl refl refl refl refl refl)

  pub Keeps-on_presence_join : (c f : ℕ) → Keeps P (on_presence_join c f)
  unfolding on_presence_join
  Keeps-on_presence_join c f =
      Keeps-Same (on_presence_join c f)
        (λ w. Same-set_channel c _ w _ refl refl refl refl refl refl)

  pub Keeps-on_presence_leave : (c f : ℕ) → Keeps P (on_presence_leave c f)
  unfolding on_presence_leave
  Keeps-on_presence_leave c f =
      Keeps-Same (on_presence_leave c f)
        (λ w. Same-set_channel c _ w _ refl refl refl refl refl refl)

  pub Keeps-close : Keeps P close
  unfolding close
  Keeps-close = Keeps-Same close (λ w. Same-rest w _ refl refl refl refl)

  Keeps-update_payload : (p : ℕ) (payload : Payload) → Keeps P (update_payload p payload)
  unfolding update_payload
  Keeps-update_payload p payload =
      Keeps-Same (update_payload p payload) (λ w. Same-rest w _ refl refl refl refl)

  Keeps-once : (c : ℕ) → Keeps P (modify_channel c (λ ch. record ch { joined_once = true }))
  Keeps-once c =
      Keeps-modify_channel c (λ ch. record ch { joined_once = true }) (λ ch. refl) (λ ch. refl)

  pub Keeps-prepare_join : (c : ℕ) (f : Option ℕ) → Keeps P (prepare_join c f)
  unfolding prepare_join
  Keeps-prepare_join c f =
      search (quiet_rules, Keeps-update_payload, Keeps-once, Keeps-receive) depth 20

module _ {P : World → Type 0} ⦃s : Stable P⦄ (closed : M ⊤) (closed_keeps : Keeps P closed) where
  pub Keeps-subscribe : (c : ℕ) (f : Option ℕ) → Keeps P (subscribe closed c f)
  unfolding subscribe
  Keeps-subscribe c f = Keeps-bind (Keeps-gets (λ w. w.is_connected)) (λ connected.
      Keeps-bind (Keeps-when (not connected) (Keeps-connect closed closed_keeps)) (λ _.
        Keeps-bind (Keeps-gets (λ w. (w.channel_at c).joined_once)) (λ joined_once.
          Keeps-bind (Keeps-when joined_once (Keeps-raise subscribed_before))
            (λ _. Keeps-bind (Keeps-prepare_join c f) (λ _. Keeps-rejoin closed closed_keeps c)))))

  pub Keeps-join : (c : ℕ) → Keeps P (join closed c)
  unfolding join
  Keeps-join c = Keeps-bind (Keeps-gets (λ w. w.channel_at c)) (λ ch.
      Keeps-bind Keeps-make_ref (λ ref. Keeps-send closed closed_keeps (record {
        event = ChannelEvents.join;
        payload = ("config", wrapped_config (join_config ch)) ∷ [];
        topic = ch.topic;
        ref = some ref;
      })))

  pub Keeps-send_broadcast :
      (c : ℕ) (event : String) (body : Json) → Keeps P (send_broadcast closed c event body)
  unfolding send_broadcast
  Keeps-send_broadcast c event body =
      Keeps-bind
        (Keeps-push closed closed_keeps c ChannelEvents.broadcast
          (("type", json "broadcast") ∷ ("event", json event) ∷ ("payload", json body) ∷ []) none)
        (λ _. Keeps-pure tt)

  Keeps-send_presence :
      (c : ℕ) (event : String) (body : Json) → Keeps P (send_presence closed c event body)
  unfolding send_presence
  Keeps-send_presence c event body =
      Keeps-bind
        (Keeps-push closed closed_keeps c ChannelEvents.presence
          (("event", json event) ∷ ("payload", json body) ∷ []) none)
        (λ _. Keeps-pure tt)

  pub Keeps-track : (c : ℕ) (user_status : Json) → Keeps P (track closed c user_status)
  unfolding track
  Keeps-track c user_status = Keeps-send_presence c "track" user_status

  pub Keeps-untrack : (c : ℕ) → Keeps P (untrack closed c)
  unfolding untrack
  Keeps-untrack c = Keeps-send_presence c "untrack" "{}"

  pub Keeps-rejoin_until_connected : (c : ℕ) → Keeps P (rejoin_until_connected closed c)
  unfolding rejoin_until_connected
  Keeps-rejoin_until_connected c = Keeps-bind (Keeps-schedule_rejoin c) (λ _.
      Keeps-bind (Keeps-gets (λ w. w.is_connected))
        (λ connected. Keeps-when connected (Keeps-rejoin closed closed_keeps c)))

  pub Keeps-heartbeat_round : Keeps P (heartbeat_round closed)
  unfolding heartbeat_round
  Keeps-heartbeat_round = Keeps-bind (Keeps-send closed closed_keeps heartbeat_message) (λ _.
      Keeps-modify (λ w. record w { slept = w.slept ++ (max w.hb_interval 15000) ∷ [] })
        (λ w. Same-rest w _ refl refl refl refl))

  pub Keeps-remove_channel : (c : ℕ) → Keeps P (remove_channel closed c)
  unfolding remove_channel
  Keeps-remove_channel c = Keeps-bind (Keeps-gets (λ w. w)) (λ w.
      Keeps-bind
        (Keeps-when (contains (w.channel_at c).topic w.channels)
          (Keeps-unsubscribe closed closed_keeps (get_or (w.channel_at c).topic c w.channels)))
        (λ _.
          Keeps-bind (Keeps-gets (λ w. is_empty w.channels))
            (λ empty. Keeps-when empty Keeps-close)))

  pub Keeps-remove_all_channels : Keeps P (remove_all_channels closed)
  unfolding remove_all_channels
  Keeps-remove_all_channels = Keeps-bind (Keeps-gets values) (λ channels.
      Keeps-bind (Keeps-for_each channels (Keeps-unsubscribe closed closed_keeps))
        (λ _. Keeps-close))

  pub Keeps-set_auth : (new_token : Option String) → Keeps P (set_auth closed new_token)
  unfolding set_auth
  Keeps-set_auth new_token =
      Keeps-bind
        (Keeps-modify (λ w. record w { access_token = new_token })
          (λ w. Same-rest w _ refl refl refl refl))
        (λ _.
          Keeps-bind (Keeps-gets values)
            (λ channels. Keeps-for_each channels (Keeps-token closed closed_keeps new_token)))
