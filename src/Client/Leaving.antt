-- ===== src/Client/Leaving.antt =====
-- `unsubscribe` of realtime/_async/channel.py and `remove_all_channels` of client.py, on an open
-- connection whose socket takes every message.
use realtime_py.Prelude.{
  ℕ, ◌+◌, ◌≡◌, ◌≢◌, refl, sym, ap, if_true, eq_iff, ◌∙◌, false, true, none, some, [], ◌∷◌, ◌++◌,
  arith, ◌==◌, if◌then◌else◌, Bool-cases, inl, inr,
}
use realtime_py.Prelude.Dict.{lookup, lookup-insert}
use realtime_py.Prelude.Decimal.{decimal}
use realtime_py.Types.{ChannelStates, RealtimeAcknowledgementStatus, Message, default_timeout}
use realtime_py.Types.ChannelEvents
use realtime_py.Timer.{Timer, reset}
use realtime_py.World.{
  World, Channel, leave_close, M, ⊤, returns, continue, ◌>>=◌, ◌>>◌, put_at, put_at_self, put_at_ne,
  put_at-field, set_push,
}
use realtime_py.Channel.{set_state, reset_rejoin_timer}
use realtime_py.Push.{fresh_push, new_push, cancel_timeout, destroy, receive, add_callback}
use realtime_py.Push.Timeout.{receive_waits}
use realtime_py.Socket.{has_timed_out, push_send, unsubscribe}
use realtime_py.Socket.Taken.{
  message_of, Alike, Alike-refl, Alike-trans, put_at-Alike, none_or_some, Taken-field,
  push_send-Taken,
}

-- The message with which a channel leaves its topic.
abbrev pub leave_message : ℕ → ℕ → World → Message
leave_message c ref w = record {
  topic = (w.channel_at c).topic;
  event = ChannelEvents.leave;
  ref = some (decimal (ref + 1));
  payload = [];
}

-- What the client is after a channel has left.
pub record Left (c : ℕ) (w v : World) : Type 0 where
  pub is_connected : v.is_connected ≡ true
  pub accepts : v.send_outcomes ≡ []
  pub channels : v.channels ≡ w.channels
  pub ref : v.ref ≡ w.ref + 1
  pub wire : v.wire ≡ w.wire ++ leave_message c w.ref w ∷ []
  pub topic : (d : ℕ) → (v.channel_at d).topic ≡ (w.channel_at d).topic
  pub leaves : (v.channel_at c).state ≡ ChannelStates.leaving
  pub still :
      (d : ℕ)
      → (w.channel_at d).state ≡ ChannelStates.leaving
      → (v.channel_at d).state ≡ ChannelStates.leaving
  pub waits :
      lookup (decimal (w.ref + 1)) (v.channel_at c).messages_waiting_for_ack ≡ some w.next_push
  pub hooks : (v.push_at w.next_push).ok_callbacks ≡ leave_close c ∷ []
  pub pushes : (q : ℕ) → w.next_push ≢ q → Alike (v.push_at q) (w.push_at q)

destroy-keeps :
    (p : ℕ) (v : World)
    → (u : World) × (destroy p v ≡ (returns tt, u))
      × (u.channel_at ≡ v.channel_at)
      × (u.next_push ≡ v.next_push)
      × (u.ref ≡ v.ref)
      × (u.is_connected ≡ v.is_connected)
      × (u.channels ≡ v.channels)
      × (u.wire ≡ v.wire)
      × (u.send_outcomes ≡ v.send_outcomes)
      × (u.push_at ≡ ((destroy p v).1).push_at)
unfolding destroy cancel_timeout
destroy-keeps p v = (
  (destroy p v).1,
  ground arith,
  ground arith,
  ground arith,
  ground arith,
  ground arith,
  ground arith,
  ground arith,
  ground arith,
  refl,
)

-- `unsubscribe` past the cancelled timeout of the join push.
abbrev send_leave : M ⊤ → ℕ → M ⊤
send_leave closed c = do
  leave_push ← new_push c ChannelEvents.leave [] default_timeout
  receive leave_push RealtimeAcknowledgementStatus.ok (leave_close c)
  receive leave_push RealtimeAcknowledgementStatus.error (leave_close c)
  push_send closed leave_push

send_leave_lem :
    (closed : M ⊤) (c : ℕ) (u : World)
    → u.is_connected ≡ true
    → u.send_outcomes ≡ []
    → (v : World) × (send_leave closed c u ≡ (returns tt, v))
      × (v.is_connected ≡ true)
      × (v.send_outcomes ≡ [])
      × (v.channels ≡ u.channels)
      × (v.ref ≡ u.ref + 1)
      × (v.wire ≡ u.wire ++ leave_message c u.ref u ∷ [])
      × ((d : ℕ) → (v.channel_at d).topic ≡ (u.channel_at d).topic)
      × ((d : ℕ) → (v.channel_at d).state ≡ (u.channel_at d).state)
      × (lookup (decimal (u.ref + 1)) (v.channel_at c).messages_waiting_for_ack ≡ some u.next_push)
      × ((v.push_at u.next_push).ok_callbacks ≡ leave_close c ∷ [])
      × ((q : ℕ) → u.next_push ≢ q → Alike (v.push_at q) (u.push_at q))
unfolding new_push
send_leave_lem closed c u connected accepts =
    let p = u.next_push in
    let w0 = record (set_push p (fresh_push c ChannelEvents.leave [] default_timeout) u) {
      next_push = p + 1;
    } in
    let e0 : (w0.push_at p).received_resp ≡ none = rw put_at_self refl in
    let w1 =
      set_push p (add_callback RealtimeAcknowledgementStatus.ok (leave_close c) (w0.push_at p))
        w0 in
    let e1 : (w1.push_at p).received_resp ≡ none = rw put_at_self e0 in
    let w2 =
      set_push p (add_callback RealtimeAcknowledgementStatus.error (leave_close c) (w1.push_at p))
        w1 in
    let live : has_timed_out (w2.push_at p) ≡ false =
      rw (put_at_self, put_at_self, put_at_self) refl in
    let own : (w2.push_at p).channel ≡ c = rw (put_at_self, put_at_self, put_at_self) refl in
    let (v, sent, taken) = push_send-Taken closed p w2 live connected accepts in
    let named : message_of p w2 ≡ leave_message c u.ref u =
      rw (put_at_self, put_at_self, put_at_self) refl in
    (
      record v { wire = u.wire ++ message_of p w2 ∷ []; send_outcomes = [] },
      ap
            (continue (λ _.
              receive p RealtimeAcknowledgementStatus.error (leave_close c) >> push_send closed p))
            (receive_waits p RealtimeAcknowledgementStatus.ok (leave_close c) w0 e0)
          ∙ ap (continue (λ _. push_send closed p))
              (receive_waits p RealtimeAcknowledgementStatus.error (leave_close c) w1 e1)
          ∙ sent,
      taken.is_connected ∙ connected,
      refl,
      taken.channels,
      taken.ref,
      ap (λ m. u.wire ++ m ∷ []) named,
      Taken-field (λ ch. ch.topic) (λ _ _. refl) taken,
      Taken-field (λ ch. ch.state) (λ _ _. refl) taken,
      rw (taken.channel_at, own, put_at_self, lookup-insert)
          (if_true _ ((eq_iff (decimal (u.ref + 1)) (decimal (u.ref + 1))).1 refl)),
      (taken.pushes p).ok_callbacks ∙ rw (put_at_self, put_at_self, put_at_self) refl,
      λ q other. Alike-trans (taken.pushes q) (
          rw (put_at_ne p q _ _ other, put_at_ne p q _ _ other, put_at_ne p q _ _ other)
            (Alike-refl (u.push_at q))),
    )

destroy-Alike : (p : ℕ) (v : World) (q : ℕ) → Alike (((destroy p v).1).push_at q) (v.push_at q)
unfolding destroy cancel_timeout
destroy-Alike p v q = elim (none_or_some (v.push_at p).timeout_task) [
  | inl idle ↦ rw (destroy, cancel_timeout, idle) (Alike-refl (v.push_at q))
  | inr (i, started) ↦
      rw (destroy, cancel_timeout, started)
        (put_at-Alike p (record (v.push_at p) { timeout_task = none }) v.push_at q
          (record { channel = refl; event = refl; payload = refl; ok_callbacks = refl }))
]

-- The channels once one of them is leaving.
abbrev marked : ℕ → World → ℕ → Channel
marked c w = put_at c (record (w.channel_at c) { state = ChannelStates.leaving }) w.channel_at

marked-state :
    (c : ℕ) (w : World) (d : ℕ)
    → (w.channel_at d).state ≡ ChannelStates.leaving
    → (marked c w d).state ≡ ChannelStates.leaving
unfolding put_at
marked-state c w d h = elim (Bool-cases (c == d)) [
  | inl same ↦ rw (put_at, same, if◌then◌else◌) refl
  | inr other ↦ rw (put_at, other, if◌then◌else◌) h
]

-- A channel that leaves on an open connection is leaving, and its message is the next on the wire; the
-- client keeps the channel.
pub unsubscribe-Left :
    (closed : M ⊤) (c : ℕ) (w : World)
    → w.is_connected ≡ true
    → w.send_outcomes ≡ []
    → (v : World) × (unsubscribe closed c w ≡ (returns tt, v)) × Left c w v
unfolding unsubscribe set_state reset_rejoin_timer
unsubscribe-Left closed c w connected accepts =
    let w1 = (reset_rejoin_timer c (set_state c ChannelStates.leaving w).1).1 in
    let (u, destroyed, at, next, ref, still, channels, wire, outcomes, pushes) =
      destroy-keeps (w1.channel_at c).join_push w1 in
    let (
      v, sent, still', outcomes', channels', ref', wire', topic', state', waits, hooks, pushes',
    ) =
      send_leave_lem closed c u (still ∙ connected) (outcomes ∙ accepts) in
    let topic =
      λ (d : ℕ). ap (λ g. (g d).topic) at ∙ same_field (λ ch. ch.topic) (λ _ _. refl) d ∙ named d in
    let state = λ (d : ℕ). ap (λ g. (g d).state) at ∙ same_field (λ ch. ch.state) (λ _ _. refl) d in
    (
      v,
      ap (continue (λ _. send_leave closed c)) destroyed ∙ sent,
      record {
        is_connected = still';
        accepts = outcomes';
        channels = channels' ∙ channels;
        ref = rw ref at ref';
        wire = wire' ∙ rw (wire, ref, topic c) refl;
        topic = λ d. topic' d ∙ topic d;
        leaves = state' c ∙ state c ∙ rw put_at_self refl;
        still = λ d h. state' d ∙ state d ∙ marked-state c w d h;
        waits = rw (ref, next) at waits;
        hooks = rw next at hooks;
        pushes = λ q other.
            Alike-trans (pushes' q (λ same. other (sym next ∙ same)))
              (rw pushes (destroy-Alike (w1.channel_at c).join_push w1 q));
      },
    )
  where
    w1 : World
    w1 = (reset_rejoin_timer c (set_state c ChannelStates.leaving w).1).1

    same_field :
        {B : Type 0} (f : Channel → B)
        → ((ch : Channel) (t : Timer) → f (record ch { rejoin_timer = t }) ≡ f ch)
        → (d : ℕ) → f (w1.channel_at d) ≡ f (marked c w d)
    same_field f same d =
        let timer = (reset (marked c w c).rejoin_timer w.tasks).0 in
        put_at-field f c (record (marked c w c) { rejoin_timer = timer }) (marked c w) d
          (same (marked c w c) timer)

    named : (d : ℕ) → (marked c w d).topic ≡ (w.channel_at d).topic
    named d =
        put_at-field (λ ch. ch.topic) c (record (w.channel_at c) { state = ChannelStates.leaving })
          w.channel_at d refl
