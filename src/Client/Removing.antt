-- ===== src/Client/Removing.antt =====
-- Several channels that leave: `remove_all_channels` and `_leave_open_topic` of
-- realtime/_async/client.py, on an open connection whose socket takes every message.
use realtime_py.Prelude.{
  ℕ, ◌+◌, ◌≡◌, refl, ap, ◌∙◌, sym, Bool, true, ◌&&◌, ◌||◌, List, [], ◌∷◌, ◌++◌, append_assoc,
  append_nil, All, keep, str_eq, eq_iff, get_elem?, some, zero, suc, Bool-cases, inl, inr,
}
use realtime_py.Types.{ChannelStates, Message}
use realtime_py.World.{World, M, ⊤, returns, continue, for_each}
use realtime_py.Channel.{in_state}
use realtime_py.Socket.{values, unsubscribe, dup_channels, leave_open_topic}
use realtime_py.Client.Leaving.{leave_message, unsubscribe-Left}

-- The messages with which channels leave, in order, under the references that follow.
abbrev pub leave_messages : World → ℕ → List ℕ → List Message
leave_messages w ref [] = []
leave_messages w ref (c ∷ cs) = leave_message c ref w ∷ leave_messages w (ref + 1) cs

abbrev IsLeaving : World → ℕ → Type 0
IsLeaving w c = (w.channel_at c).state ≡ ChannelStates.leaving

record AllLeft (cs : List ℕ) (w v u : World) : Type 0 where
  wire : u.wire ≡ v.wire ++ leave_messages w v.ref cs
  channels : u.channels ≡ v.channels
  leave : All (IsLeaving u) cs
  still : (d : ℕ) → IsLeaving v d → IsLeaving u d

unsubscribe_all :
    (closed : M ⊤) (cs : List ℕ) (w v : World)
    → ((d : ℕ) → (v.channel_at d).topic ≡ (w.channel_at d).topic)
    → v.is_connected ≡ true
    → v.send_outcomes ≡ []
    → (u : World) × (for_each (unsubscribe closed) cs v ≡ (returns tt, u)) × AllLeft cs w v u
unsubscribe_all closed [] w v topics connected accepts = (
  v,
  refl,
  record { wire = sym (append_nil v.wire); channels = refl; leave = tt; still = λ d h. h },
)
unsubscribe_all closed (c ∷ cs) w v topics connected accepts =
    let (v', sent, left) = unsubscribe-Left closed c v connected accepts in
    let (u, rest, all) =
      unsubscribe_all closed cs w v' (λ d. left.topic d ∙ topics d) left.is_connected
        left.accepts in
    (
      u,
      ap (continue (λ _. for_each (unsubscribe closed) cs)) sent ∙ rest,
      record {
        wire =
            all.wire
            ∙ rw (left.wire, left.ref, topics c)
                (append_assoc v.wire (leave_message c v.ref w ∷ [])
                  (leave_messages w (v.ref + 1) cs));
        channels = all.channels ∙ left.channels;
        leave = (all.still c left.leaves, all.leave);
        still = λ d h. all.still d (left.still d h);
      },
    )

get_elem?-keep :
    {A : Type 0} (p : A → Bool) (a : A) (cs : List A) (i : ℕ)
    → p a ≡ true
    → get_elem? cs i ≡ some a
    → (j : ℕ) × (get_elem? (keep p cs) j ≡ some a)
get_elem?-keep p a [] i h e = cc
get_elem?-keep p a (b ∷ bs) zero h e =
    let same : b ≡ a = cc e in let first : p b ≡ true = rw same h in (zero, rw (keep, first) e)
get_elem?-keep p a (b ∷ bs) (suc i) h e =
    let (j, e') = get_elem?-keep p a bs i h e in
    elim (Bool-cases (p b)) [
      | inl kept ↦ (suc j, rw (keep, kept) e')
      | inr dropped ↦ (j, rw (keep, dropped) e')
    ]

-- `_leave_open_topic` of a connected client whose socket takes every message puts a leave on the wire
-- for each channel of the client with the topic that is joined or joining, in order, and nothing else;
-- so `_rejoin` of a joined channel of the client, which calls it with the channel's own topic, makes
-- that very channel leave.
pub leave_open_topic-leaves :
    (closed : M ⊤) (c i : ℕ) (w : World)
    → w.is_connected ≡ true
    → w.send_outcomes ≡ []
    → get_elem? (values w) i ≡ some c
    → (w.channel_at c).state ≡ ChannelStates.joined
    → let topic = (w.channel_at c).topic in
      let (r, w') = leave_open_topic closed topic w in
      (r ≡ returns tt)
      × (w'.wire ≡ w.wire ++ leave_messages w w.ref (dup_channels topic w))
      × ((j : ℕ) × (get_elem? (dup_channels topic w) j ≡ some c))
      × All (λ d. (w'.channel_at d).state ≡ ChannelStates.leaving) (dup_channels topic w)
unfolding leave_open_topic dup_channels
leave_open_topic-leaves closed c i w connected accepts listed joined =
    let topic = (w.channel_at c).topic in
    let (u, left, all) =
      unsubscribe_all closed (dup_channels topic w) w w (λ d. refl) connected accepts in
    let own : (str_eq topic topic
          && (in_state ChannelStates.joined (w.channel_at c)
              || in_state ChannelStates.joining (w.channel_at c)))
        ≡ true =
      rw (joined, (eq_iff topic topic).1 refl) refl in
    rw (leave_open_topic, left)
      (refl, all.wire, get_elem?-keep _ c (values w) i own listed, all.leave)
