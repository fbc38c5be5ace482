-- ===== src/Subscription/Joining.antt =====
-- `subscribe` of realtime/_async/channel.py on an open connection whose socket takes every message.
use realtime_py.Prelude.{
  ℕ, ◌+◌, ◌≡◌, refl, ap, ◌∙◌, map, if◌then◌else◌, Bool-cases, inl, inr, String, true, false, not,
  ◌&&◌, ◌||◌, Option, none, some, [], ◌∷◌, ◌++◌, keep, str_eq, if_false,
}
use realtime_py.Prelude.Dict.{lookup, insert, lookup-insert}
use realtime_py.Prelude.Decimal.{decimal}
use realtime_py.Types.{
  ChannelStates, RealtimeAcknowledgementStatus, Payload, Message, Value, token, binding_filter,
  config,
}
use realtime_py.World.{
  World, Channel, subscribe_ok, subscribe_error, subscribe_timeout, M, ⊤, returns, raise,
  subscribed_before, gets, when, ◌>>=◌, continue, for_each, ◌>>◌, put_at, put_at_self, put_at-field,
  set_push, set_channel,
}
use realtime_py.Channel.{in_state, set_state}
use realtime_py.Push.Timeout.{receive_waits}
use realtime_py.Push.{receive, add_callback, update_payload, merge_payload}
use realtime_py.Socket.{
  values, dup_channels, leave_open_topic, unsubscribe, connect, rejoin, resend,
}
use realtime_py.Socket.Rejoining.{Joins, resend-Joins, Joins-waits}
use realtime_py.Subscription.{subscribe, prepare_join, join_config, with_token}

-- The channels of a topic, where topics and states are the same.
dup_channels-same :
    (topic : String) (w v : World)
    → v.channels ≡ w.channels
    → ((c : ℕ) → (v.channel_at c).topic ≡ (w.channel_at c).topic)
    → ((c : ℕ) → (v.channel_at c).state ≡ (w.channel_at c).state)
    → dup_channels topic v ≡ dup_channels topic w
unfolding dup_channels
dup_channels-same topic w v channels topics states = λ i.
    keep
      (λ c.
        let ch = record (w.channel_at c) { topic = topics c i; state = states c i } in
        str_eq (topics c i) topic
        && (in_state ChannelStates.joined ch || in_state ChannelStates.joining ch))
      (values (record w { channels = channels i }))

-- The store before `_rejoin`: the join push has its payload and the callbacks of the subscription.
abbrev join_payload : ℕ → World → Payload
join_payload c w =
    let ch = w.channel_at c in
    merge_payload (w.push_at ch.join_push).payload
      (with_token w.access_token (("config", config (join_config ch)) ∷ []))

record Prepared (c : ℕ) (w v : World) : Type 0 where
  channel_at : v.channel_at ≡ put_at c (record (w.channel_at c) { joined_once = true }) w.channel_at
  channels : v.channels ≡ w.channels
  ref : v.ref ≡ w.ref
  wire : v.wire ≡ w.wire
  is_connected : v.is_connected ≡ w.is_connected
  accepts : v.send_outcomes ≡ w.send_outcomes
  channel :
      (v.push_at (w.channel_at c).join_push).channel
      ≡ (w.push_at (w.channel_at c).join_push).channel
  event :
      (v.push_at (w.channel_at c).join_push).event ≡ (w.push_at (w.channel_at c).join_push).event
  payload : (v.push_at (w.channel_at c).join_push).payload ≡ join_payload c w

prepare_join_lem :
    (c : ℕ) (f : Option ℕ) (w : World)
    → let ch = w.channel_at c in
      (w.push_at ch.join_push).received_resp ≡ none
      → (v : World) × (prepare_join c f w ≡ (returns tt, v)) × Prepared c w v
unfolding prepare_join update_payload
prepare_join_lem c f w waits =
    let ch = w.channel_at c in
    let p = ch.join_push in
    let w0 =
      set_channel c (record ch { joined_once = true })
        (set_push p (record (w.push_at p) { payload = join_payload c w }) w) in
    let e0 : (w0.push_at p).received_resp ≡ none = rw put_at_self waits in
    let w1 =
      set_push p (add_callback RealtimeAcknowledgementStatus.ok (subscribe_ok c f) (w0.push_at p))
        w0 in
    let e1 : (w1.push_at p).received_resp ≡ none = rw put_at_self e0 in
    let w2 =
      set_push p
        (add_callback RealtimeAcknowledgementStatus.error (subscribe_error f) (w1.push_at p)) w1 in
    let e2 : (w2.push_at p).received_resp ≡ none = rw put_at_self e1 in
    let w3 =
      set_push p
        (add_callback RealtimeAcknowledgementStatus.timeout (subscribe_timeout f) (w2.push_at p))
        w2 in
    (
      w3,
      ap
            (continue (λ _.
              receive p RealtimeAcknowledgementStatus.error (subscribe_error f)
              >> receive p RealtimeAcknowledgementStatus.timeout (subscribe_timeout f)))
            (receive_waits p RealtimeAcknowledgementStatus.ok (subscribe_ok c f) w0 e0)
          ∙ ap
              (continue
                (λ _. receive p RealtimeAcknowledgementStatus.timeout (subscribe_timeout f)))
              (receive_waits p RealtimeAcknowledgementStatus.error (subscribe_error f) w1 e1)
          ∙ receive_waits p RealtimeAcknowledgementStatus.timeout (subscribe_timeout f) w2 e2,
      record {
        channel_at = refl;
        channels = refl;
        ref = refl;
        wire = refl;
        is_connected = refl;
        accepts = refl;
        channel = rw (put_at_self, put_at_self, put_at_self, put_at_self) refl;
        event = rw (put_at_self, put_at_self, put_at_self, put_at_self) refl;
        payload = rw (put_at_self, put_at_self, put_at_self, put_at_self) refl;
      },
    )

-- `_rejoin` of a channel that is not leaving, where no channel of its topic is to be left.
rejoin-Joins :
    (closed : M ⊤) (c : ℕ) (v : World)
    → let ch = v.channel_at c in
      in_state ChannelStates.leaving ch ≡ false
      → dup_channels ch.topic v ≡ []
      → (v.push_at ch.join_push).channel ≡ c
      → v.is_connected ≡ true
      → v.send_outcomes ≡ []
      → (u : World) × (rejoin closed c v ≡ (returns tt, u)) × Joins c ch.join_push v u
unfolding rejoin leave_open_topic
rejoin-Joins closed c v stays alone own connected accepts =
    let p = (v.channel_at c).join_push in
    let (u, joined, joins) = resend-Joins closed c p v own connected accepts in
    let leaves_none =
      ap
        (λ cs.
          continue (λ _. resend closed p)
            (continue (λ _. set_state c ChannelStates.joining)
              (for_each (unsubscribe closed) cs v)))
        alone in
    (u, if_false _ stays ∙ leaves_none ∙ joined, joins)

-- The message of the join, as the program makes it.
abbrev join_message : ℕ → World → Message
join_message c w =
    let ch = w.channel_at c in
    record {
      topic = ch.topic;
      event = (w.push_at ch.join_push).event;
      ref = some (decimal (w.ref + 1));
      payload = join_payload c w;
    }

-- What a join is to carry under a key: the token if there is one that is not empty, the config of the
-- channel, and for any other key what the join push was made with.
abbrev pub token_entry : Option String → String → Option Value → Option Value
token_entry none k entry = entry
token_entry (some t) k entry =
    if str_eq t "" then entry else if str_eq "access_token" k then some (token (some t)) else entry

abbrev pub join_entry : ℕ → World → String → Option Value
join_entry c w k =
    let ch = w.channel_at c in
    token_entry w.access_token k (
      if str_eq "config" k
      then some (
          config (record {
            broadcast = ch.params.broadcast;
            presence = ch.params.presence;
            private = ch.params.private;
            postgres_changes = some (map binding_filter ch.postgres_changes_callbacks);
          }))
      else lookup k (w.push_at ch.join_push).payload)

pub record IsJoin (c : ℕ) (w : World) (m : Message) : Type 0 where
  pub topic : m.topic ≡ (w.channel_at c).topic
  pub event : m.event ≡ (w.push_at (w.channel_at c).join_push).event
  pub ref : m.ref ≡ some (decimal (w.ref + 1))
  pub payload : (k : String) → lookup k m.payload ≡ join_entry c w k

lookup-merge_payload :
    (old : Payload) (v : Value) (tok : Option String) (k : String)
    → lookup k (merge_payload old (with_token tok (("config", v) ∷ [])))
      ≡ token_entry tok k (if str_eq "config" k then some v else lookup k old)
unfolding merge_payload
lookup-merge_payload old v none k = lookup-insert "config" k v old
lookup-merge_payload old v (some t) k = elim (Bool-cases (str_eq t "")) [
  | inl empty ↦ rw (empty, if◌then◌else◌) (lookup-insert "config" k v old)
  | inr given ↦
      rw (given, if◌then◌else◌)
        (lookup-insert "access_token" k (token (some t)) (insert "config" v old)
          ∙ ap (λ o. if str_eq "access_token" k then some (token (some t)) else o)
              (lookup-insert "config" k v old))
]

join_message-IsJoin : (c : ℕ) (w : World) → IsJoin c w (join_message c w)
join_message-IsJoin c w = record {
  topic = refl;
  event = refl;
  ref = refl;
  payload = λ k.
      lookup-merge_payload (w.push_at (w.channel_at c).join_push).payload
        (config (join_config (w.channel_at c))) w.access_token k;
}

-- The first `subscribe` of a channel that is not leaving, whose join push is its own and has no reply,
-- where no channel of the topic is joined or joining, on a connected client whose socket takes every
-- message: it returns, the channel is joining, one message is added to the wire, and the join push
-- waits under its reference. That message has the topic of the channel, the event of the join push and
-- the next reference; it carries under `config` the configuration of the channel with the filters of
-- its listeners, under `access_token` the token of the client where it has one that is not empty, and
-- under any other key what the join push was made with.
pub subscribe_joins :
    (closed : M ⊤) (c : ℕ) (f : Option ℕ) (w : World)
    → let ch = w.channel_at c in
      w.is_connected ≡ true
      → w.send_outcomes ≡ []
      → ch.joined_once ≡ false
      → in_state ChannelStates.leaving ch ≡ false
      → dup_channels ch.topic w ≡ []
      → (w.push_at ch.join_push).received_resp ≡ none
      → (w.push_at ch.join_push).channel ≡ c
      → let (r, w') = subscribe closed c f w in
        (r ≡ returns tt)
        × ((w'.channel_at c).state ≡ ChannelStates.joining)
        × ((m : Message) × IsJoin c w m × (w'.wire ≡ w.wire ++ m ∷ []))
        × (lookup (decimal (w.ref + 1)) (w'.channel_at c).messages_waiting_for_ack
            ≡ some ch.join_push)
unfolding subscribe
subscribe_joins closed c f w connected accepts first stays alone waits own =
    let (v, prepared, same) = prepare_join_lem c f w waits in
    let ch = w.channel_at c in
    let at_v : v.channel_at c ≡ record ch { joined_once = true } =
      rw (same.channel_at, put_at_self) refl in
    let alone_still : dup_channels ch.topic v ≡ [] =
      dup_channels-same ch.topic w v same.channels (kept v same (λ x. x.topic) refl)
        (kept v same (λ x. x.state) refl)
      ∙ alone in
    let (u, rejoined, again) =
      rejoin-Joins closed c v (rw at_v stays) (rw at_v alone_still) (rw at_v (same.channel ∙ own))
        (same.is_connected ∙ connected) (same.accepts ∙ accepts) in
    let run : subscribe closed c f w ≡ (returns tt, u) =
      ap (λ b. continue guarded (when (not b) (connect closed) w)) connected
      ∙ ap (λ b. continue (λ _. joins) (when b (raise subscribed_before) w)) first
      ∙ ap (continue (λ _. rejoin closed c)) prepared
      ∙ rejoined in
    rw run (
      refl,
      rw again.channel refl,
      (
        join_message c w,
        join_message-IsJoin c w,
        again.wire ∙ rw (at_v, same.wire, same.event, same.ref, same.payload) refl,
      ),
      rw at_v at (rw same.ref at (Joins-waits again)),
    )
  where
    joins : M ⊤
    joins = prepare_join c f >> rejoin closed c

    guarded : ⊤ → M ⊤
    guarded _ = gets (λ w. (w.channel_at c).joined_once) >>= λ joined_once.
        when joined_once (raise subscribed_before) >> joins

    kept :
        {B : Type 0} (v : World)
        → Prepared c w v
        → (f : Channel → B)
        → f (record (w.channel_at c) { joined_once = true }) ≡ f (w.channel_at c)
        → (d : ℕ) → f (v.channel_at d) ≡ f (w.channel_at d)
    kept v same f e d =
        ap (λ g. f (g d)) same.channel_at
        ∙ put_at-field f c (record (w.channel_at c) { joined_once = true }) w.channel_at d e
