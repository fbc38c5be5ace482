-- ===== src/Socket/Rejoining.antt =====
-- The end of `_rejoin` of realtime/_async/channel.py, on an open connection whose socket takes every
-- message.
use realtime_py.Prelude.{
  ℕ, ◌+◌, ◌≡◌, refl, ap, ◌∙◌, true, false, none, some, [], ◌∷◌, ◌++◌, if_true, eq_iff,
}
use realtime_py.Prelude.Dict.{lookup, insert, lookup-insert}
use realtime_py.Prelude.Decimal.{decimal}
use realtime_py.Types.{ChannelStates, Message}
use realtime_py.World.{World, M, ⊤, returns, ◌>>◌, put_at_self, put_at-field, set_push, set_channel}
use realtime_py.Channel.{set_state}
use realtime_py.Socket.{resend}
use realtime_py.Socket.Taken.{
  message_of, Alike, Alike-trans, put_at-Alike, push_send-Taken, Taken-field,
}

-- The message of a push of a channel that is sent again.
abbrev pub join_again : ℕ → ℕ → World → Message
join_again c p v = record {
  topic = (v.channel_at c).topic;
  event = (v.push_at p).event;
  ref = some (decimal (v.ref + 1));
  payload = (v.push_at p).payload;
}

-- What the client holds once the channel joins again.
pub record Joins (c p : ℕ) (v u : World) : Type 0 where
  pub channel : u.channel_at c ≡ record (v.channel_at c) {
    state = ChannelStates.joining;
    messages_waiting_for_ack =
        insert (decimal (v.ref + 1)) p (v.channel_at c).messages_waiting_for_ack;
  }
  pub wire : u.wire ≡ v.wire ++ join_again c p v ∷ []
  pub ref : u.ref ≡ v.ref + 1
  pub is_connected : u.is_connected ≡ true
  pub accepts : u.send_outcomes ≡ []
  pub channels : u.channels ≡ v.channels
  pub topic : (d : ℕ) → (u.channel_at d).topic ≡ (v.channel_at d).topic
  pub pushes : (q : ℕ) → Alike (u.push_at q) (v.push_at q)

pub resend-Joins :
    (closed : M ⊤) (c p : ℕ) (v : World)
    → (v.push_at p).channel ≡ c
    → v.is_connected ≡ true
    → v.send_outcomes ≡ []
    → (u : World) × ((set_state c ChannelStates.joining >> resend closed p) v ≡ (returns tt, u))
      × Joins c p v u
unfolding set_state resend
resend-Joins closed c p v own connected accepts =
    let ch = v.channel_at c in
    let v1 = set_channel c (record ch { state = ChannelStates.joining }) v in
    let ps = record (v.push_at p) { ref = none; received_resp = none; sent = false } in
    let v2 = set_push p ps v1 in
    let (u, sent, taken) = push_send-Taken closed p v2 (rw put_at_self refl) connected accepts in
    let own' : (v2.push_at p).channel ≡ c = rw put_at_self own in
    (
      record u { wire = v.wire ++ message_of p v2 ∷ []; send_outcomes = [] },
      sent,
      record {
        channel = rw (taken.channel_at, own', put_at_self, put_at_self) refl;
        wire = ap (λ x. v.wire ++ x ∷ []) (rw (put_at_self, own, put_at_self) refl);
        ref = taken.ref;
        is_connected = taken.is_connected ∙ connected;
        accepts = refl;
        channels = taken.channels;
        topic = λ d.
            Taken-field (λ ch. ch.topic) (λ _ _. refl) taken d
            ∙ put_at-field (λ x. x.topic) c (record ch { state = ChannelStates.joining })
                v.channel_at d refl;
        pushes = λ q. Alike-trans (taken.pushes q) (
            put_at-Alike p ps v.push_at q
              (record { channel = refl; event = refl; payload = refl; ok_callbacks = refl }));
      },
    )

-- The push of a channel that joins again waits under its new reference.
pub Joins-waits :
    {c p : ℕ} {v u : World}
    → Joins c p v u
    → lookup (decimal (v.ref + 1)) (u.channel_at c).messages_waiting_for_ack ≡ some p
Joins-waits {v} joins =
    let ref = decimal (v.ref + 1) in
    rw (joins.channel, lookup-insert) (if_true _ ((eq_iff ref ref).1 refl))
