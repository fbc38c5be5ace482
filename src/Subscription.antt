-- ===== src/Subscription.antt =====
-- realtime/_async/channel.py: the methods of a channel that send.
pub mod Pushing
pub mod Joining
use realtime_py.Prelude.{
  ℕ, String, Bool, true, false, not, ◌&&◌, Option, none, some, [], ◌∷◌, ◌++◌, map, ◌==◌, str_eq,
  if◌then◌else◌,
}
use realtime_py.Types.{
  Json, ChannelStates, RealtimeAcknowledgementStatus, binding_filter, JoinConfig, json, token,
  config, wrapped_config, Payload, default_timeout,
}
use realtime_py.Types.ChannelEvents
use realtime_py.Timer.{new_timer}
use realtime_py.Presence
use realtime_py.World.{
  World, Channel, ChannelConfig, join_ok, join_timeout, subscribe_ok, subscribe_error,
  subscribe_timeout, set_channel, subscribed_before, not_subscribed, assertion_error, M, ⊤, pure,
  raise, gets, modify, ◌>>=◌, ◌>>◌, skip, when, modify_channel,
}
use realtime_py.Push.{new_push, update_payload, start_timeout, receive}
use realtime_py.Channel.{schedule_rejoin}
use realtime_py.Socket.{make_ref, send, push_send, connect, rejoin}

-- The default of `params`, its two configurations as text.
abbrev pub default_config : ChannelConfig
default_config = record {
  broadcast = some "{'ack': False, 'self': False}";
  presence = some "{'key': ''}";
  private = false;
}

abbrev pub params_or_default : Option ChannelConfig → ChannelConfig
params_or_default none = default_config
params_or_default (some params) = params

abbrev pub join_config : Channel → JoinConfig
join_config ch = record {
  broadcast = ch.params.broadcast;
  presence = ch.params.presence;
  private = ch.params.private;
  postgres_changes = some (map binding_filter ch.postgres_changes_callbacks);
}

-- `AsyncRealtimeChannel.__init__`: the channel gets the given number, its join push the next free one.
unfoldable pub init_channel : ℕ → String → Option ChannelConfig → M ⊤
init_channel c topic params w =
    (do
      join_push ← new_push c ChannelEvents.join (("config", config initial) ∷ []) default_timeout
      modify (
          set_channel c (record {
            topic = topic;
            params = params_or_default params;
            joined_once = false;
            presence = Presence.init;
            state = ChannelStates.closed;
            push_buffer = [];
            timeout = w.timeout;
            join_push = join_push;
            messages_waiting_for_ack = [];
            broadcast_callbacks = [];
            system_callbacks = [];
            postgres_changes_callbacks = [];
            rejoin_timer = new_timer;
          }))
      receive join_push RealtimeAcknowledgementStatus.ok (join_ok c)
      receive join_push RealtimeAcknowledgementStatus.timeout (join_timeout c))
      w
  where
    initial : JoinConfig
    initial = record {
      broadcast = (params_or_default params).broadcast;
      presence = (params_or_default params).presence;
      private = (params_or_default params).private;
      postgres_changes = none;
    }

-- `if self.socket.access_token`: an empty text is false
abbrev pub with_token : Option String → Payload → Payload
with_token none payload = payload
with_token (some t) payload =
    if str_eq t "" then payload else payload ++ ("access_token", token (some t)) ∷ []

unfoldable pub can_push : ℕ → World → Bool
can_push c w = w.is_connected && (w.channel_at c).joined_once

-- `timeout or self.timeout`
abbrev pub timeout_or : Option ℕ → ℕ → ℕ
timeout_or none d = d
timeout_or (some n) d = if n == 0 then d else n

-- The part of `subscribe` before `_rejoin`.
unfoldable pub prepare_join : ℕ → Option ℕ → M ⊤
prepare_join c f = do
  w ← gets (λ w. w)
  let ch = w.channel_at c
  update_payload ch.join_push (with_token w.access_token (("config", config (join_config ch)) ∷ []))
  modify_channel c (λ ch. record ch { joined_once = true })
  receive ch.join_push RealtimeAcknowledgementStatus.ok (subscribe_ok c f)
  receive ch.join_push RealtimeAcknowledgementStatus.error (subscribe_error f)
  receive ch.join_push RealtimeAcknowledgementStatus.timeout (subscribe_timeout f)

-- The branch of `push` that keeps the push for later.
unfoldable pub push_later : ℕ → ℕ → M ℕ
push_later c p = do
  start_timeout p
  modify_channel c (λ ch. record ch { push_buffer = ch.push_buffer ++ p ∷ [] })
  pure p

module _ (closed : M ⊤) where
  unfoldable pub subscribe : ℕ → Option ℕ → M ⊤
  unfolding prepare_join
  subscribe c f = do
    connected ← gets (λ w. w.is_connected)
    when (not connected) (connect closed)
    joined_once ← gets (λ w. (w.channel_at c).joined_once)
    when joined_once (raise subscribed_before)
    prepare_join c f
    rejoin closed c

  -- The branch of `push` that sends at once, with its assertion.
  unfoldable pub push_out : ℕ → M ℕ
  push_out p = do
    push_send closed p
    ref ← gets (λ w. (w.push_at p).ref)
    elim ref [ none ↦ raise assertion_error | some _ ↦ pure p ]

  -- The part of `push` after its guard.
  unfoldable pub push_now : ℕ → String → Payload → Option ℕ → M ℕ
  push_now c event payload timeout = do
    w ← gets (λ w. w)
    p ← new_push c event payload (timeout_or timeout (w.channel_at c).timeout)
    (if can_push c w then push_out p else push_later c p)

  unfoldable pub push : ℕ → String → Payload → Option ℕ → M ℕ
  unfolding push_now
  push c event payload timeout w =
      if (w.channel_at c).joined_once
      then push_now c event payload timeout w
      else raise not_subscribed w

  unfoldable pub join : ℕ → M ⊤
  join c = do
    ch ← gets (λ w. w.channel_at c)
    ref ← make_ref
    send closed (record {
      event = ChannelEvents.join;
      payload = ("config", wrapped_config (join_config ch)) ∷ [];
      topic = ch.topic;
      ref = some ref;
    })

  unfoldable pub send_broadcast : ℕ → String → Json → M ⊤
  send_broadcast c event body =
      push c ChannelEvents.broadcast
        (("type", json "broadcast") ∷ ("event", json event) ∷ ("payload", json body) ∷ []) none
      >> skip

  unfoldable pub send_presence : ℕ → String → Json → M ⊤
  send_presence c event body =
      push c ChannelEvents.presence (("event", json event) ∷ ("payload", json body) ∷ []) none
      >> skip

  unfoldable pub track : ℕ → Json → M ⊤
  track c user_status = send_presence c "track" user_status

  unfoldable pub untrack : ℕ → M ⊤
  untrack c = send_presence c "untrack" "{}"

  -- `_rejoin_until_connected`, which the rejoin timer runs.
  unfoldable pub rejoin_until_connected : ℕ → M ⊤
  rejoin_until_connected c = do
    schedule_rejoin c
    connected ← gets (λ w. w.is_connected)
    when connected (rejoin closed c)
