-- ===== src/Stable/Handled.antt =====
-- Stable invariants and the messages of the server, which realtime/_async/channel.py handles.
use realtime_py.Prelude.{refl, ℕ, String, Option, none, some, List, str_eq}
use realtime_py.Prelude.Dict.{Dict, lookup, erase}
use realtime_py.Types.{
  Json, RealtimeAcknowledgementStatus, ReplyPayload, success, failure, SystemPayload,
  BroadcastPayload, PostgresChangesPayload, ServerMessage, system_message, reply_message,
  heartbeat_message, broadcast_message, presence_state_message, presence_diff_message,
  postgres_changes_message, channel_error_message, channel_close_message, topic_of,
}
use realtime_py.Presence.{AsyncRealtimePresence, Call}
use realtime_py.World.{
  World, changes, details, presence_called, key_error, ⊤, Outcome, returns, raises, set_channel,
}
use realtime_py.World.Keeps.{Keeps, Keeps-bind, Keeps-pure, Keeps-for_each, Keeps-if, Keeps-raise}
use realtime_py.Messages.{
  pop_waiting, acknowledge, handle_reply, handle_system, set_presence, handle_broadcast,
  handle_postgres, handle_message, dispatch,
}
use realtime_py.Stable.{Stable, Stable-Steady}
use realtime_py.Stable.Quiet.{
  Keeps-modify_channel, Keeps-on_error, Keeps-on_close, Keeps-call_user, quiet_rules,
}
use realtime_py.Stable.Hooks.{Keeps-trigger}

module _ {P : World → Type 0} ⦃s : Stable P⦄ where
  Keeps-pop_waiting : (c : ℕ) (ref : String) → Keeps P (pop_waiting c ref)
  unfolding pop_waiting
  Keeps-pop_waiting c ref = record {
    at = λ w h. by_entry w h (lookup ref (w.channel_at c).messages_waiting_for_ack);
  }
    where
      by_entry :
          (w : World) (h : P w) (o : Option ℕ)
          → let ch = w.channel_at c in
            P
              (elim o as (λ _. Outcome ℕ × World) [
                | none ↦ (raises key_error, w)
                | some p ↦ (
                  returns p,
                  set_channel c
                      (record ch {
                        messages_waiting_for_ack = erase ref ch.messages_waiting_for_ack;
                      })
                      w,
                )
              ]).1
      by_entry w h none = h
      by_entry w h (some p) = s.steady.settled c ref w h

  Keeps-acknowledge : (p : ℕ) (payload : ReplyPayload) → Keeps P (acknowledge p payload)
  unfolding acknowledge
  Keeps-acknowledge p (success xs) = Keeps-trigger p RealtimeAcknowledgementStatus.ok (changes xs)
  Keeps-acknowledge p (failure body) =
      Keeps-trigger p RealtimeAcknowledgementStatus.error (details body)

  Keeps-handle_reply :
      (c : ℕ) (ref : Option String) (payload : ReplyPayload) → Keeps P (handle_reply c ref payload)
  unfolding handle_reply
  Keeps-handle_reply c none payload = Keeps-pure tt
  Keeps-handle_reply c (some ref) payload =
      Keeps-if (str_eq ref "") (Keeps-pure tt)
        (Keeps-bind (Keeps-pop_waiting c ref) (λ p. Keeps-acknowledge p payload))

  Keeps-handle_system : (c : ℕ) (payload : SystemPayload) → Keeps P (handle_system c payload)
  unfolding handle_system
  Keeps-handle_system c (SystemPayload.success body) = search quiet_rules
  Keeps-handle_system c (SystemPayload.error body) = Keeps-on_error c

  Keeps-set_presence :
      (c : ℕ) (o : Option (AsyncRealtimePresence (Dict Json) × List (Call (Dict Json))))
      → Keeps P (set_presence c o)
  unfolding set_presence
  Keeps-set_presence c none = Keeps-raise key_error
  Keeps-set_presence c (some (presence, calls)) =
      Keeps-bind
        (Keeps-modify_channel c (λ ch. record ch { presence = presence }) (λ ch. refl) (λ ch. refl))
        (λ _. Keeps-for_each calls (λ call. Keeps-call_user (presence_called call)))

  Keeps-handle_broadcast :
      (c : ℕ) (payload : BroadcastPayload) → Keeps P (handle_broadcast c payload)
  unfolding handle_broadcast
  Keeps-handle_broadcast c payload = search quiet_rules depth 9

  Keeps-handle_postgres :
      (c : ℕ) (payload : PostgresChangesPayload) → Keeps P (handle_postgres c payload)
  unfolding handle_postgres
  Keeps-handle_postgres c payload = search quiet_rules depth 9

  pub Keeps-handle_message : (c : ℕ) (m : ServerMessage) → Keeps P (handle_message c m)
  unfolding handle_message
  Keeps-handle_message c (system_message topic payload) = Keeps-handle_system c payload
  Keeps-handle_message c (reply_message topic ref payload) = Keeps-handle_reply c ref payload
  Keeps-handle_message c (broadcast_message topic payload) = Keeps-handle_broadcast c payload
  Keeps-handle_message c (presence_state_message topic payload) =
      search (quiet_rules, Keeps-set_presence)
  Keeps-handle_message c (presence_diff_message topic joins leaves) =
      search (quiet_rules, Keeps-set_presence)
  Keeps-handle_message c (postgres_changes_message topic payload) = Keeps-handle_postgres c payload
  Keeps-handle_message c (channel_error_message topic body) = Keeps-on_error c
  Keeps-handle_message c (channel_close_message topic body) = Keeps-on_close c
  Keeps-handle_message c heartbeat_message = Keeps-pure tt

  pub Keeps-dispatch : (m : ServerMessage) → Keeps P (dispatch m)
  unfolding dispatch
  Keeps-dispatch m = record { at = λ w h. by_channel w h (lookup (topic_of m) w.channels) }
    where
      by_channel :
          (w : World) (h : P w) (o : Option ℕ)
          → P
              (elim o as (λ _. Outcome ⊤ × World) [
                | none ↦ (returns tt, w)
                | some c ↦ handle_message c m w
              ]).1
      by_channel w h none = h
      by_channel w h (some c) = (Keeps-handle_message c m).at w h
