-- ===== src/Client/Auth.antt =====
-- `set_auth` of realtime/_async/client.py on an open connection whose socket takes every message.
use realtime_py.Prelude.{
  ℕ, ◌+◌, ◌≡◌, refl, ap, ◌∙◌, sym, String, Bool, true, false, ◌&&◌, Option, none, some, List, [],
  ◌∷◌, ◌++◌, arith, append_assoc, append_nil, Bool-cases, inl, inr, if_true, if◌then◌else◌,
}
use realtime_py.Prelude.Decimal.{decimal}
use realtime_py.Types.{ChannelStates, Payload, token, Message}
use realtime_py.Types.ChannelEvents
use realtime_py.World.{
  World, M, ⊤, returns, raise, pure, assertion_error, continue, ◌>>=◌, ◌>>◌, gets, skip, when,
  for_each, put_at_self, set_push,
}
use realtime_py.Channel.{in_state}
use realtime_py.Push.{fresh_push, new_push}
use realtime_py.Socket.{values, push_send}
use realtime_py.Socket.Taken.{message_of, Taken-field, push_send-Taken}
use realtime_py.Subscription.{can_push, push_later, timeout_or, push_out, push_now, push}
use realtime_py.Client.{set_auth}

-- A client that goes on taking messages: the same channels with the same topics and states.
pub record Open (w v : World) : Type 0 where
  pub is_connected : v.is_connected ≡ true
  pub accepts : v.send_outcomes ≡ []
  pub channels : v.channels ≡ w.channels
  pub access_token : v.access_token ≡ w.access_token
  pub topic : (c : ℕ) → (v.channel_at c).topic ≡ (w.channel_at c).topic
  pub state : (c : ℕ) → (v.channel_at c).state ≡ (w.channel_at c).state
  pub joined_once : (c : ℕ) → (v.channel_at c).joined_once ≡ (w.channel_at c).joined_once

abbrev pushed : ℕ → String → Payload → World → Message
pushed c event payload w = record {
  topic = (w.channel_at c).topic;
  event = event;
  ref = some (decimal (w.ref + 1));
  payload = payload;
}

-- A push of a channel that has been subscribed is the next message on the wire.
pub push-Open :
    (closed : M ⊤) (c : ℕ) (event : String) (payload : Payload) (timeout : Option ℕ) (w : World)
    → (w.channel_at c).joined_once ≡ true
    → w.is_connected ≡ true
    → w.send_outcomes ≡ []
    → (v : World) × (push closed c event payload timeout w ≡ (returns w.next_push, v))
      × (v.wire ≡ w.wire ++ pushed c event payload w ∷ [])
      × (v.ref ≡ w.ref + 1)
      × Open w v
unfolding push push_now new_push can_push push_out
push-Open closed c event payload timeout w once connected accepts =
    let p = w.next_push in
    let ps = fresh_push c event payload (timeout_or timeout (w.channel_at c).timeout) in
    let made = record (set_push p ps w) { next_push = w.next_push + 1 } in
    let (v, sent, taken) = push_send-Taken closed p made (rw put_at_self refl) connected accepts in
    let m = message_of p made in
    let v' = record v { wire = w.wire ++ m ∷ []; send_outcomes = [] } in
    let can : can_push c w ≡ true = rw (can_push, connected, once) refl in
    let opened : Open w v' = record {
      is_connected = taken.is_connected ∙ connected;
      accepts = refl;
      channels = taken.channels;
      access_token = taken.access_token;
      topic = Taken-field (λ ch. ch.topic) (λ _ _. refl) taken;
      state = Taken-field (λ ch. ch.state) (λ _ _. refl) taken;
      joined_once = Taken-field (λ ch. ch.joined_once) (λ _ _. refl) taken;
    } in
    let named : m ≡ pushed c event payload w = rw put_at_self refl in
    (
      v',
      if_true _ once ∙ go made v' can sent taken.named,
      ap (λ x. w.wire ++ x ∷ []) named,
      taken.ref,
      opened,
    )
  where
    referenced : Option String → M ℕ
    referenced ref = elim ref as (λ _. M ℕ) [
      | none ↦ raise assertion_error
      | some _ ↦ pure w.next_push
    ]

    go :
        (made v : World) {ref : String}
        → can_push c w ≡ true
        → push_send closed w.next_push made ≡ (returns tt, v)
        → (v.push_at w.next_push).ref ≡ some ref
        → (if can_push c w then push_out closed w.next_push else push_later c w.next_push) made
          ≡ (returns w.next_push, v)
    go made v can sent named =
        ap (λ b. (if b then push_out closed w.next_push else push_later c w.next_push) made) can
        ∙ rw (push_out, sent) (ap (λ ref. referenced ref v) named)

abbrev joined : ℕ → World → Bool
joined c w = let ch = w.channel_at c in ch.joined_once && in_state ChannelStates.joined ch

-- The messages with the token for the channels among these that are joined, in order, under the
-- references that follow.
abbrev pub auth_messages : World → Option String → ℕ → List ℕ → List Message
auth_messages w new_token ref [] = []
auth_messages w new_token ref (c ∷ cs) = elim (joined c w) [
  | false ↦ auth_messages w new_token ref cs
  | true ↦
      record {
        topic = (w.channel_at c).topic;
        event = ChannelEvents.access_token;
        ref = some (decimal (ref + 1));
        payload = ("access_token", token new_token) ∷ [];
      }
      ∷ auth_messages w new_token (ref + 1) cs
]

abbrev authorize : M ⊤ → Option String → ℕ → M ⊤
authorize closed new_token c = gets (λ w. joined c w) >>= λ joined.
    when joined (
      push closed c ChannelEvents.access_token (("access_token", token new_token) ∷ []) none
      >> skip)

Open-trans : {w v u : World} → Open w v → Open v u → Open w u
Open-trans a b = record {
  is_connected = b.is_connected;
  accepts = b.accepts;
  channels = b.channels ∙ a.channels;
  access_token = b.access_token ∙ a.access_token;
  topic = λ c. b.topic c ∙ a.topic c;
  state = λ c. b.state c ∙ a.state c;
  joined_once = λ c. b.joined_once c ∙ a.joined_once c;
}

Open-joined : {w v : World} → Open w v → (c : ℕ) → joined c v ≡ joined c w
Open-joined {w} {v} o c = rw (o.state c, o.joined_once c) refl

authorize_all :
    (closed : M ⊤) (new_token : Option String) (cs : List ℕ) (w v : World)
    → Open w v
    → (u : World) × (for_each (authorize closed new_token) cs v ≡ (returns tt, u))
      × (u.wire ≡ v.wire ++ auth_messages w new_token v.ref cs)
      × Open w u
authorize_all closed new_token [] w v o = (v, refl, sym (append_nil v.wire), o)
authorize_all closed new_token (c ∷ cs) w v o = elim (Bool-cases (joined c w)) [
  | inr other ↦
      let (u, e, wire, o') = authorize_all closed new_token cs w v o in
      (u, ap (continue later) (skipped other) ∙ e, rw (auth_messages, other) wire, o')
  | inl same ↦
      let once : (v.channel_at c).joined_once ≡ true = o.joined_once c ∙ ground arith in
      let (v', sent, wire, ref, o') =
        push-Open closed c ChannelEvents.access_token payload none v once o.is_connected
          o.accepts in
      let (u, e, wires, o'') = authorize_all closed new_token cs w v' (Open-trans o o') in
      (u, ap (continue later) (sends same sent) ∙ e, wires ∙ lengthened v' u same wire ref, o'')
]
  where
    payload : Payload
    payload = ("access_token", token new_token) ∷ []

    later : ⊤ → M ⊤
    later _ = for_each (authorize closed new_token) cs

    body : M ⊤
    body = push closed c ChannelEvents.access_token payload none >> skip

    skipped : joined c w ≡ false → authorize closed new_token c v ≡ (returns tt, v)
    skipped other = ap (λ b. when b body v) (Open-joined o c ∙ other)

    sends :
        {v' : World}
        → joined c w ≡ true
        → push closed c ChannelEvents.access_token payload none v ≡ (returns v.next_push, v')
        → authorize closed new_token c v ≡ (returns tt, v')
    sends same sent =
        ap (λ b. when b body v) (Open-joined o c ∙ same) ∙ ap (continue (λ _. skip)) sent

    lengthened :
        (v' u : World)
        → joined c w ≡ true
        → v'.wire ≡ v.wire ++ pushed c ChannelEvents.access_token payload v ∷ []
        → v'.ref ≡ v.ref + 1
        → v'.wire ++ auth_messages w new_token v'.ref cs
          ≡ v.wire ++ auth_messages w new_token v.ref (c ∷ cs)
    lengthened v' u same wire ref =
        rw (wire, ref, auth_messages, same, o.topic c)
          (append_assoc v.wire (_ ∷ []) (auth_messages w new_token (v.ref + 1) cs))

-- `set_auth` of a connected client whose socket takes every message: it returns, the client has the new
-- token, and what it puts on the wire is the message with the token for each channel of the client
-- that has been subscribed and is joined, in the order of the channels, each under a reference of its
-- own, and nothing else.
pub set_auth_lem :
    (closed : M ⊤) (new_token : Option String) (w : World)
    → w.is_connected ≡ true
    → w.send_outcomes ≡ []
    → let (r, w') = set_auth closed new_token w in
      (r ≡ returns tt)
      × (w'.access_token ≡ new_token)
      × (w'.wire ≡ w.wire ++ auth_messages w new_token w.ref (values w))
unfolding set_auth
set_auth_lem closed new_token w connected accepts =
    let start = record w { access_token = new_token } in
    let same : Open start start = record {
      is_connected = connected;
      accepts = accepts;
      channels = refl;
      access_token = refl;
      topic = λ _. refl;
      state = λ _. refl;
      joined_once = λ _. refl;
    } in
    let (u, e, wire, opened) = authorize_all closed new_token (values w) start start same in
    rw (set_auth, e) (refl, opened.access_token, wire)
