-- ===== src/Socket/Taken.antt =====
-- `AsyncPush.send` of realtime/_async/push.py on an open connection whose socket takes every message.
use realtime_py.Prelude.{
  ℕ, ◌+◌, ◌≡◌, refl, ap, ◌∙◌, true, false, Option, none, some, [], ◌∷◌, ◌++◌, if_true, if_false,
  arith, inl, inr, ◌⊎◌,
}
use realtime_py.Prelude.Dict.{Dict, insert}
use realtime_py.Prelude.Decimal.{decimal}
use realtime_py.Types.{Message}
use realtime_py.World.{
  World, Channel, Push, M, ⊤, returns, continue, modify_push, put_at, put_at_self, put_at-field,
  set_push,
}
use realtime_py.Push.{start_timeout}
use realtime_py.Socket.{make_ref, register, send, has_timed_out, push_send}
use realtime_py.Socket.Sending.{send_open}

-- The message of a push under a new reference.
abbrev pub message_of : ℕ → World → Message
message_of p w =
    let ps = w.push_at p in
    record {
      topic = (w.channel_at ps.channel).topic;
      event = ps.event;
      ref = some (decimal (w.ref + 1));
      payload = ps.payload;
    }

-- The channels once the push waits under its new reference.
abbrev pub waiting_at : ℕ → World → ℕ → Channel
waiting_at p w =
    let c = (w.push_at p).channel in
    let ch = w.channel_at c in
    put_at c
      (record ch {
        messages_waiting_for_ack = insert (decimal (w.ref + 1)) p ch.messages_waiting_for_ack;
      })
      w.channel_at

-- What a push is, whatever its reference, its timeout and its answer.
pub record Alike (a b : Push) : Type 0 where
  pub channel : a.channel ≡ b.channel
  pub event : a.event ≡ b.event
  pub payload : a.payload ≡ b.payload
  pub ok_callbacks : a.ok_callbacks ≡ b.ok_callbacks

pub Alike-refl : (a : Push) → Alike a a
Alike-refl a = record { channel = refl; event = refl; payload = refl; ok_callbacks = refl }

pub Alike-trans : {a b c : Push} → Alike a b → Alike b c → Alike a c
Alike-trans x y = record {
  channel = x.channel ∙ y.channel;
  event = x.event ∙ y.event;
  payload = x.payload ∙ y.payload;
  ok_callbacks = x.ok_callbacks ∙ y.ok_callbacks;
}

-- One push is replaced by one that is alike.
pub put_at-Alike :
    (p : ℕ) (a : Push) (g : ℕ → Push) (q : ℕ) → Alike a (g p) → Alike (put_at p a g q) (g q)
put_at-Alike p a g q x = record {
  channel = put_at-field (λ ps. ps.channel) p a g q x.channel;
  event = put_at-field (λ ps. ps.event) p a g q x.event;
  payload = put_at-field (λ ps. ps.payload) p a g q x.payload;
  ok_callbacks = put_at-field (λ ps. ps.ok_callbacks) p a g q x.ok_callbacks;
}

-- What else the client holds once the push is sent.
pub record Taken (p : ℕ) (w v : World) : Type 0 where
  pub channel_at : v.channel_at ≡ waiting_at p w
  pub ref : v.ref ≡ w.ref + 1
  pub named : (v.push_at p).ref ≡ some (decimal (w.ref + 1))
  pub is_connected : v.is_connected ≡ w.is_connected
  pub channels : v.channels ≡ w.channels
  pub access_token : v.access_token ≡ w.access_token
  pub calls : v.calls ≡ w.calls
  pub pushes : (q : ℕ) → Alike (v.push_at q) (w.push_at q)

abbrev entered : ℕ → World → World
entered p w = record (set_push p (record (w.push_at p) { ref = some (decimal (w.ref + 1)) }) w) {
  ref = w.ref + 1;
  channel_at = waiting_at p w;
}

pub none_or_some : {A : Type 0} (o : Option A) → (o ≡ none) ⊎ ((a : A) × (o ≡ some a))
none_or_some none = inl refl
none_or_some (some a) = inr (a, refl)

start_timeout-Alike :
    (p : ℕ) (v : World) (q : ℕ) → Alike (((start_timeout p v).1).push_at q) (v.push_at q)
unfolding start_timeout
start_timeout-Alike p v q = elim (none_or_some (v.push_at p).timeout_task) [
  | inr (i, started) ↦ rw (start_timeout, started) (Alike-refl (v.push_at q))
  | inl idle ↦
      rw (start_timeout, idle)
        (put_at-Alike p _ v.push_at q
          (record { channel = refl; event = refl; payload = refl; ok_callbacks = refl }))
]

start_timeout-ref :
    (p : ℕ) (v : World) → (((start_timeout p v).1).push_at p).ref ≡ (v.push_at p).ref
unfolding start_timeout
start_timeout-ref p v = elim (none_or_some (v.push_at p).timeout_task) [
  | inl idle ↦ rw (start_timeout, idle, put_at_self) refl
  | inr (i, started) ↦ rw (start_timeout, started) refl
]

start_timeout-keeps :
    (p : ℕ) (v : World)
    → (u : World) × (start_timeout p v ≡ (returns tt, u))
      × (u.channel_at ≡ v.channel_at)
      × (u.push_at ≡ ((start_timeout p v).1).push_at)
      × (u.ref ≡ v.ref)
      × (u.is_connected ≡ v.is_connected)
      × (u.channels ≡ v.channels)
      × (u.access_token ≡ v.access_token)
      × (u.calls ≡ v.calls)
      × (u.wire ≡ v.wire)
      × (u.send_outcomes ≡ v.send_outcomes)
unfolding start_timeout
start_timeout-keeps p v = (
  (start_timeout p v).1,
  ground arith,
  ground arith,
  refl,
  ground arith,
  ground arith,
  ground arith,
  ground arith,
  ground arith,
  ground arith,
  ground arith,
)

-- A push that has not timed out, sent by a connected client whose socket takes every message: the send
-- returns, and its message is the next on the wire.
pub push_send-Taken :
    (closed : M ⊤) (p : ℕ) (w : World)
    → has_timed_out (w.push_at p) ≡ false
    → w.is_connected ≡ true
    → w.send_outcomes ≡ []
    → (v : World) × (push_send closed p w
        ≡ (returns tt, record v { wire = w.wire ++ message_of p w ∷ []; send_outcomes = [] }))
      × Taken p w v
unfolding push_send register make_ref send
push_send-Taken closed p w live connected accepts =
    let (u, e, channel_at, pushes, ref, still, channels, token, calls, wire, outcomes) =
      start_timeout-keeps p (entered p w) in
    let v = (modify_push p (λ ps. record ps { sent = true }) u).1 in
    let registered : register p w ≡ (returns (message_of p w), v) =
      rw (put_at_self, e, channel_at, put_at_self) refl in
    (
      v,
      if_false _ live
          ∙ ap (continue (send closed)) registered
          ∙ if_true _ (still ∙ connected)
          ∙ send_open closed (message_of p w) v (still ∙ connected) (outcomes ∙ accepts)
          ∙ ap
              (λ ms.
                (returns tt, record v { wire = ms ++ message_of p w ∷ []; send_outcomes = [] }))
              wire,
      record {
        channel_at = channel_at;
        ref = ref;
        named =
            rw put_at_self (
              ap (λ g. (g p).ref) pushes ∙ start_timeout-ref p (entered p w) ∙ rw put_at_self refl);
        is_connected = still;
        channels = channels;
        access_token = token;
        calls = calls;
        pushes = λ q.
            Alike-trans
              (put_at-Alike p (record (u.push_at p) { sent = true }) u.push_at q
                (record { channel = refl; event = refl; payload = refl; ok_callbacks = refl }))
              (Alike-trans (rw pushes (start_timeout-Alike p (entered p w) q)) (
                put_at-Alike p (record (w.push_at p) { ref = some (decimal (w.ref + 1)) }) w.push_at
                  q
                  (record { channel = refl; event = refl; payload = refl; ok_callbacks = refl })));
      },
    )

-- A field that a waiting push does not change.
pub Taken-field :
    {B : Type 0} (f : Channel → B)
    → ((ch : Channel) (d : Dict ℕ) → f (record ch { messages_waiting_for_ack = d }) ≡ f ch)
    → {p : ℕ} {w v : World} → Taken p w v
    → (j : ℕ) → f (v.channel_at j) ≡ f (w.channel_at j)
Taken-field f same {p} {w} taken j =
    let c = (w.push_at p).channel in
    let d = insert (decimal (w.ref + 1)) p (w.channel_at c).messages_waiting_for_ack in
    ap (λ g. f (g j)) taken.channel_at
    ∙ put_at-field f c (record (w.channel_at c) { messages_waiting_for_ack = d }) w.channel_at j
        (same (w.channel_at c) d)
