-- ===== src/Client/Returning.antt =====
-- A channel that leaves, and the reply of the server: `unsubscribe` and `_rejoin` of
-- realtime/_async/channel.py, and `_handle_message`.
use realtime_py.Prelude.{
  ℕ, ◌+◌, ◌≡◌, ◌≢◌, ◌<◌, refl, ap, ◌∙◌, String, true, false, Option, none, some, List, [], ◌∷◌,
  ◌++◌, arith, append_assoc, eq_iff, str_eq, if_false, if_true,
}
use realtime_py.Prelude.Dict.{lookup, IsDict, lookup-erase, lookup-insert}
use realtime_py.Prelude.Decimal.{decimal, decimal_injective, decimal_nonempty}
use realtime_py.Types.{
  ChannelStates, RealtimeAcknowledgementStatus, PostgresRowChange, success, ServerMessage,
  reply_message, topic_of,
}
use realtime_py.World.{
  World, leave_close, changes, M, ⊤, Outcome, returns, continue, ◌>>◌, for_each, skip, put_at_self,
  set_push,
}
use realtime_py.Channel.{on_close, run_hook, set_state, in_state}
use realtime_py.Channel.States.{on_close_lem}
use realtime_py.Push.{trigger, callbacks_of}
use realtime_py.Socket.{unsubscribe, dup_channels, leave_open_topic, rejoin, resend}
use realtime_py.Socket.Rejoining.{join_again, Joins, resend-Joins}
use realtime_py.Messages.{acknowledge, handle_message, dispatch}
use realtime_py.Messages.Replies.{settle, handle_reply_waiting, dispatch_unknown_topic}
use realtime_py.Client.Leaving.{leave_message, Left, unsubscribe-Left}

-- A channel of the client that waits for the reply to its leave, with the number of its leave push.
record Awaits (c n ref : ℕ) (u : World) : Type 0 where
  topics : IsDict u.channels
  known : lookup (u.channel_at c).topic u.channels ≡ some c
  positive : 0 < ref
  waits : lookup (decimal ref) (u.channel_at c).messages_waiting_for_ack ≡ some n
  hooks : (u.push_at n).ok_callbacks ≡ leave_close c ∷ []

-- What a client is without the channel: it is closed, and no message of its topic has an effect.
abbrev pub Gone : ℕ → String → World → Type 0
Gone c topic u =
    ((u.channel_at c).state ≡ ChannelStates.closed)
    × ((message : ServerMessage) → topic_of message ≡ topic → dispatch message u ≡ (returns tt, u))

trigger_close :
    (c n : ℕ) (xs : Option (List PostgresRowChange)) (s : World)
    → (s.push_at n).ok_callbacks ≡ leave_close c ∷ []
    → (s' : World) × (s'.channels ≡ s.channels)
      × (s'.channel_at ≡ s.channel_at)
      × (trigger n RealtimeAcknowledgementStatus.ok (changes xs) s ≡ (on_close c >> skip) s')
unfolding trigger run_hook
trigger_close c n xs s hooks =
    let s' =
      set_push n
        (record (s.push_at n) {
          received_resp = some (RealtimeAcknowledgementStatus.ok, changes xs);
        })
        s in
    let named : callbacks_of RealtimeAcknowledgementStatus.ok (s'.push_at n) ≡ leave_close c ∷ [] =
      rw put_at_self hooks in
    (s', refl, refl, ap (λ hs. for_each (λ h. run_hook h (changes xs)) hs s') named)

on_close-Gone :
    (c : ℕ) (topic : String) (s : World)
    → IsDict s.channels
    → (s.channel_at c).topic ≡ topic
    → lookup topic s.channels ≡ some c
    → let (r, u) = (on_close c >> skip) s in (r ≡ returns tt) × Gone c topic u
on_close-Gone c topic s dict named known =
    let (closed, present, _) = on_close_lem c s in
    let (returned, erased) = present c (rw named known) in
    let run : on_close c s ≡ (returns tt, (on_close c s).1) = λ i. (returned i, (on_close c s).1) in
    let gone : lookup topic (on_close c s).1.channels ≡ none = rw erased (
      rw named
        (lookup-erase topic topic s.channels dict ∙ if_true _ ((eq_iff topic topic).1 refl))) in
    rw run
      (refl, (closed, λ message e. dispatch_unknown_topic message (on_close c s).1 (rw e gone)))

-- The reply to the leave closes the channel, and takes it off the client.
reply-Gone :
    (c n ref : ℕ) (xs : Option (List PostgresRowChange)) (u : World)
    → Awaits c n ref u
    → let topic = (u.channel_at c).topic in
      let (r, v) = dispatch (reply_message topic (some (decimal ref)) (success xs)) u in
      (r ≡ returns tt) × Gone c topic v
unfolding dispatch topic_of handle_message acknowledge
reply-Gone c n ref xs u awaits =
    let topic = (u.channel_at c).topic in
    let s = settle c (decimal ref) u in
    let (s', channels, at, triggered) = trigger_close c n xs s awaits.hooks in
    let handled : dispatch (reply_message topic (some (decimal ref)) (success xs)) u
        ≡ (on_close c >> skip) s' =
      rw (dispatch, awaits.known)
        (handle_reply_waiting c (decimal ref) (success xs) u (decimal_nonempty ref awaits.positive)
            n awaits.waits
          ∙ triggered) in
    rw handled (
      on_close-Gone c topic s' (rw channels awaits.topics) (rw (at, put_at_self) refl)
        (rw channels awaits.known))

Left-Awaits :
    {c : ℕ} {w v : World}
    → IsDict w.channels
    → lookup (w.channel_at c).topic w.channels ≡ some c
    → Left c w v
    → Awaits c w.next_push (w.ref + 1) v
Left-Awaits {c} {w} dict known left = record {
  topics = rw left.channels dict;
  known = rw (left.channels, left.topic c) known;
  positive = omega arith;
  waits = left.waits;
  hooks = left.hooks;
}

-- A channel of a connected client whose socket takes every message leaves: `unsubscribe` returns and
-- its leave is the next message on the wire; and when the server replies to it with success, the
-- channel is closed, and the client passes over every later message for its topic.
pub unsubscribe-dispatch :
    (closed : M ⊤) (c : ℕ) (xs : Option (List PostgresRowChange)) (w : World)
    → let topic = (w.channel_at c).topic in
      w.is_connected ≡ true
      → w.send_outcomes ≡ []
      → IsDict w.channels
      → lookup topic w.channels ≡ some c
      → let (r, v) = unsubscribe closed c w in
        let (r', u) = dispatch (reply_message topic (leave_message c w.ref w).ref (success xs)) v in
        (r ≡ returns tt)
        × (v.wire ≡ w.wire ++ leave_message c w.ref w ∷ [])
        × (r' ≡ returns tt)
        × Gone c topic u
unsubscribe-dispatch closed c xs w connected accepts dict known =
    let (v, sent, left) = unsubscribe-Left closed c w connected accepts in
    let (replied, gone) =
      rw (left.topic c) at
        (reply-Gone c w.next_push (w.ref + 1) xs v (Left-Awaits dict known left)) in
    rw sent (refl, left.wire, replied, gone)

-- A channel that joins again still waits for the reply to its leave.
Joins-Awaits :
    {c p n : ℕ} {v u : World} (ref : ℕ)
    → ref ≢ v.ref + 1
    → Joins c p v u
    → Awaits c n ref v
    → Awaits c n ref u
Joins-Awaits {c} {p} {n} {v} ref other joins awaits = record {
  topics = rw joins.channels awaits.topics;
  known = rw (joins.channels, joins.topic c) awaits.known;
  positive = awaits.positive;
  waits = rw (joins.channel, lookup-insert) (if_false _ apart ∙ awaits.waits);
  hooks = (joins.pushes n).ok_callbacks ∙ awaits.hooks;
}
  where
    apart : str_eq (decimal (v.ref + 1)) (decimal ref) ≡ false
    apart =
        ground
          (arith, eq_iff (decimal (v.ref + 1)) (decimal ref), decimal_injective (v.ref + 1) ref)

-- `_rejoin` of a joined channel, the only one of its topic, on a connected client whose socket takes
-- every message, as after a reconnect: it returns, and puts on the wire a leave and then a join of the
-- same topic; and when the server replies to the leave with success, the channel is closed, and the
-- client passes over every later message for its topic, the reply to the join included.
pub rejoin-dispatch :
    (closed : M ⊤) (c : ℕ) (xs : Option (List PostgresRowChange)) (w : World)
    → let ch = w.channel_at c in
      w.is_connected ≡ true
      → w.send_outcomes ≡ []
      → IsDict w.channels
      → lookup ch.topic w.channels ≡ some c
      → ch.state ≡ ChannelStates.joined
      → dup_channels ch.topic w ≡ c ∷ []
      → (w.push_at ch.join_push).channel ≡ c
      → w.next_push ≢ ch.join_push
      → let (r, v) = rejoin closed c w in
        let leave = leave_message c w.ref w in
        let (r', u) = dispatch (reply_message ch.topic leave.ref (success xs)) v in
        (r ≡ returns tt)
        × (v.wire
            ≡ w.wire
              ++ leave
                ∷ record (join_again c ch.join_push w) { ref = some (decimal (w.ref + 2)) }
                ∷ [])
        × (r' ≡ returns tt)
        × Gone c ch.topic u
unfolding rejoin leave_open_topic
rejoin-dispatch closed c xs w connected accepts dict known joined only own other =
    let ch = w.channel_at c in
    let p = ch.join_push in
    let (v, sent, left) = unsubscribe-Left closed c w connected accepts in
    let same = left.pushes p other in
    let (u, joined_again, joins) =
      resend-Joins closed c p v (same.channel ∙ own) left.is_connected left.accepts in
    let run : rejoin closed c w ≡ (returns tt, u) =
      if_false _ (ap (λ s. in_state ChannelStates.leaving (record ch { state = s })) joined)
      ∙ ap (λ cs. after (for_each (unsubscribe closed) cs w)) only
      ∙ ap (λ x. after (continue (λ _. skip) x)) sent
      ∙ joined_again in
    let count : v.ref + 1 ≡ w.ref + 2 = omega (arith, left.ref) in
    let again : join_again c p v ≡ record (join_again c p w) { ref = some (decimal (w.ref + 2)) } =
      λ i. record {
        topic = left.topic c i;
        event = same.event i;
        ref = some (decimal (count i));
        payload = same.payload i;
      } in
    let wire =
      joins.wire
      ∙ ap (λ ms. ms ++ join_again c p v ∷ []) left.wire
      ∙ append_assoc w.wire (leave_message c w.ref w ∷ []) (join_again c p v ∷ [])
      ∙ ap (λ m. w.wire ++ leave_message c w.ref w ∷ m ∷ []) again in
    let awaits =
      Joins-Awaits (w.ref + 1) (λ e. omega (arith, left.ref)) joins (Left-Awaits dict known left) in
    let (replied, gone) =
      rw (joins.topic c ∙ left.topic c) at (reply-Gone c w.next_push (w.ref + 1) xs u awaits) in
    rw run (refl, wire, replied, gone)
  where
    after : Outcome ⊤ × World → Outcome ⊤ × World
    after x =
        continue (λ _. resend closed (w.channel_at c).join_push)
          (continue (λ _. set_state c ChannelStates.joining) x)
