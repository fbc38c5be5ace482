-- ===== src/Stable.antt =====
-- What an invariant of the client of realtime/_async has to stand, for all calls to keep it.
pub mod Quiet
pub mod Hooks
pub mod Sends
pub mod Connects
pub mod Handled
pub mod Pushes
pub mod Calls
pub mod Run
use realtime_py.Prelude.{
  ℕ, ◌+◌, ◌≤◌, ◌≡◌, refl, ap, ◌∙◌, ◌||◌, String, Bool, true, false, Option, none, some, List, [],
  ◌∷◌, ◌++◌, arith, eq_iff, ◌==◌, str_eq, ==_iff, if◌then◌else◌, Bool-cases, inl, inr, is_empty,
}
use realtime_py.Prelude.Dict.{Dict, lookup, contains, insert, erase, lookup-insert}
use realtime_py.Prelude.Decimal.{decimal}
use realtime_py.Types.{
  RealtimeAcknowledgementStatus, RealtimeSubscribeStates, ChannelStates, PostgresRowChange,
  PostgresChangesCallback, Payload, Message,
}
use realtime_py.World.{
  World, Channel, Push, Hook, Response, nothing, Job, run_unsubscribe, UserCall, Error, type_error,
  key_error, M, ⊤, Outcome, returns, raises, pure, raise, gets, modify, continue, ◌>>=◌, ◌>>◌, skip,
  when, for_each, modify_channel, modify_push, set_channel, put_at, put_at-field, join_ok,
  join_timeout, leave_close, subscribe_ok, subscribe_error, subscribe_timeout, user_hook,
}
use realtime_py.World.Keeps.{
  Keeps, Keeps-bind, Keeps-pure, Keeps-test, Keeps-gets, Keeps-for_each, Keeps-if, Keeps-raise,
  keeps_rules,
}
use realtime_py.Channel.{
  in_state, set_state, spawn, call_user, reset_rejoin_timer, schedule_rejoin, remove_from_client,
  on_close, on_error, on_join_ok, on_join_timeout, call_subscriber, on_subscribe_ok, bind_all,
  run_hook,
}
use realtime_py.Push.{
  new_push, start_timeout, cancel_timeout, destroy, receive, call_with, trigger, callbacks_of,
  forget, timeout_elapsed, add_callback, takes_response, status_eq,
}

-- Two stores that differ in nothing but what most calls change: the counter of references, the dict of
-- channels, and for each channel its topic and the pushes that wait in it are the same.
pub record Same (w v : World) : Type 0 where
  pub ref : v.ref ≡ w.ref
  pub channels : v.channels ≡ w.channels
  pub next_channel : v.next_channel ≡ w.next_channel
  pub topic : (c : ℕ) → (v.channel_at c).topic ≡ (w.channel_at c).topic
  pub waiting :
      (c : ℕ)
      → (v.channel_at c).messages_waiting_for_ack ≡ (w.channel_at c).messages_waiting_for_ack

-- A channel with other pushes that wait.
abbrev pub with_waiting : Dict ℕ → ℕ → World → World
with_waiting d c w = set_channel c (record (w.channel_at c) { messages_waiting_for_ack = d }) w

-- The store with a new channel under its topic.
abbrev pub with_channel : Channel → World → World
with_channel ch w = record w {
  channel_at = put_at w.next_channel ch w.channel_at;
  channels = insert ch.topic w.next_channel w.channels;
  next_channel = w.next_channel + 1;
}

-- An invariant that four kinds of change keep: any change of the rest, a new reference, a push that is
-- entered under the newest reference, and one that is taken off.
pub record Steady (P : World → Type 0) : Type 0 where
  pub rest : (w v : World) → Same w v → P w → P v
  pub counted : (w : World) → P w → P (record w { ref = w.ref + 1 })
  pub entered :
      (c p : ℕ) (w : World)
      → P w
      → P (with_waiting (insert (decimal w.ref) p (w.channel_at c).messages_waiting_for_ack) c w)
  pub settled :
      (c : ℕ) (ref : String) (w : World)
      → P w
      → P (with_waiting (erase ref (w.channel_at c).messages_waiting_for_ack) c w)

-- An invariant that these changes keep, and two more: a topic that is taken off the client, and a new
-- channel.
pub record Stable (P : World → Type 0) : Type 0 where
  pub steady : Steady P
  pub removed :
      (topic : String) (w : World) → P w → P (record w { channels = erase topic w.channels })
  pub made :
      (ch : Channel) (w : World) → ch.messages_waiting_for_ack ≡ [] → P w → P (with_channel ch w)

instance pub Stable-Steady : {P : World → Type 0} ⦃s : Stable P⦄ → Steady P
Stable-Steady ⦃s⦄ = s.steady

-- A channel that is replaced by one with the same topic and the same pushes that wait.
pub Same-set_channel :
    (c : ℕ) (ch : Channel) (w v : World)
    → ch.topic ≡ (w.channel_at c).topic
    → ch.messages_waiting_for_ack ≡ (w.channel_at c).messages_waiting_for_ack
    → v.channel_at ≡ put_at c ch w.channel_at
    → v.ref ≡ w.ref
    → v.channels ≡ w.channels
    → v.next_channel ≡ w.next_channel
    → Same w v
Same-set_channel c ch w v t m at ref channels next = record {
  ref = ref;
  channels = channels;
  next_channel = next;
  topic = λ d. rw at (put_at-field (λ (x : Channel). x.topic) c ch w.channel_at d t);
  waiting =
      λ d. rw at (put_at-field (λ (x : Channel). x.messages_waiting_for_ack) c ch w.channel_at d m);
}

-- A change of nothing in the store that an invariant reads.
pub Same-rest :
    (w v : World)
    → v.channel_at ≡ w.channel_at
    → v.ref ≡ w.ref
    → v.channels ≡ w.channels
    → v.next_channel ≡ w.next_channel
    → Same w v
Same-rest w v at ref channels next = record {
  ref = ref;
  channels = channels;
  next_channel = next;
  topic = λ d. ap (λ (f : ℕ → Channel). (f d).topic) at;
  waiting = λ d. ap (λ (f : ℕ → Channel). (f d).messages_waiting_for_ack) at;
}
