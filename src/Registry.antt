-- ===== src/Registry.antt =====
-- An invariant of the dict of channels of realtime/_async/client.py and of the dicts of pushes of
-- channel.py.
pub mod Run
use realtime_py.Prelude.{
  ℕ, ◌+◌, ◌<◌, ◌≡◌, ◌≢◌, refl, sym, ◌∙◌, ap, String, Option, some, [], ◌∷◌, arith, eq_iff, ◌==◌,
  ==_iff, str_eq, if◌then◌else◌, Bool-cases, inl, inr, true, false, none,
}
use realtime_py.Prelude.Dict.{
  Dict, IsDict, lookup, insert, erase, lookup-insert, lookup-erase, insert-IsDict, erase-IsDict,
}
use realtime_py.Prelude.Decimal.{decimal}
use realtime_py.World.{World, Channel, put_at, put_at_ne, put_at_self, put_at-field}
use realtime_py.Stable.{Same, Stable, with_waiting, with_channel}

-- Each topic of the client is that of its channel, which was made; and no topic, nor a reference in a
-- channel, is listed twice.
pub record Registered (w : World) : Type 0 where
  pub topics : IsDict w.channels
  pub known :
      (topic : String) (c : ℕ)
      → lookup topic w.channels ≡ some c
      → (c < w.next_channel) × ((w.channel_at c).topic ≡ topic)
  pub references : (c : ℕ) → IsDict (w.channel_at c).messages_waiting_for_ack

rest_registered : (w v : World) → Same w v → Registered w → Registered v
rest_registered w v same h = record {
  topics = rw same.channels h.topics;
  known = λ topic c e.
      let (made, t) = h.known topic c (rw same.channels at e) in
      (rw same.next_channel made, same.topic c ∙ t);
  references = λ c. rw (same.waiting c) (h.references c);
}

with_waiting-Registered :
    (c : ℕ) (d : Dict ℕ) (w : World) → IsDict d → Registered w → Registered (with_waiting d c w)
unfolding put_at
with_waiting-Registered c d w dict h = record {
  topics = h.topics;
  known = λ topic k e.
      let (made, t) = h.known topic k e in
      (
        made,
        put_at-field (λ x. x.topic) c (record (w.channel_at c) { messages_waiting_for_ack = d })
              w.channel_at k refl
            ∙ t,
      );
  references = λ k. elim (Bool-cases (c == k)) [
    | inl same ↦ rw (same, if◌then◌else◌) dict
    | inr other ↦ rw (other, if◌then◌else◌) (h.references k)
  ];
}

removed_registered :
    (topic : String) (w : World)
    → Registered w
    → Registered (record w { channels = erase topic w.channels })
removed_registered topic w h = record {
  topics = erase-IsDict topic w.channels h.topics;
  known = λ t c e. h.known t c (kept t c e);
  references = h.references;
}
  where
    kept :
        (t : String) (c : ℕ)
        → lookup t (erase topic w.channels) ≡ some c
        → lookup t w.channels ≡ some c
    kept t c e = ground (arith, lookup-erase topic t w.channels h.topics)

made_registered :
    (ch : Channel) (w : World)
    → ch.messages_waiting_for_ack ≡ []
    → Registered w
    → Registered (with_channel ch w)
unfolding put_at
made_registered ch w empty h = record {
  topics = insert-IsDict ch.topic w.next_channel w.channels h.topics;
  known = λ t c e. elim (Bool-cases (str_eq ch.topic t)) [
    | inl own ↦ own_topic t c own e
    | inr other ↦ old_topic t c other e
  ];
  references = λ c. elim (Bool-cases (w.next_channel == c)) [
    | inl new ↦ rw (new, if◌then◌else◌) (rw empty tt)
    | inr old ↦ rw (old, if◌then◌else◌) (h.references c)
  ];
}
  where
    own_topic :
        (t : String) (c : ℕ)
        → str_eq ch.topic t ≡ true
        → lookup t (insert ch.topic w.next_channel w.channels) ≡ some c
        → (c < w.next_channel + 1) × ((put_at w.next_channel ch w.channel_at c).topic ≡ t)
    own_topic t c own e =
        let new : w.next_channel ≡ c =
          ground (arith, lookup-insert ch.topic t w.next_channel w.channels) in
        let at_c : put_at w.next_channel ch w.channel_at c ≡ ch =
          rw (sym new) (put_at_self w.next_channel ch w.channel_at) in
        (omega arith, ap (λ x. x.topic) at_c ∙ (eq_iff ch.topic t).0 own)

    old_topic :
        (t : String) (c : ℕ)
        → str_eq ch.topic t ≡ false
        → lookup t (insert ch.topic w.next_channel w.channels) ≡ some c
        → (c < w.next_channel + 1) × ((put_at w.next_channel ch w.channel_at c).topic ≡ t)
    old_topic t c other e =
        let (made, topic) =
          h.known t c (ground (arith, lookup-insert ch.topic t w.next_channel w.channels)) in
        let apart : w.next_channel ≢ c = λ same. omega arith in
        (omega arith, ap (λ x. x.topic) (put_at_ne w.next_channel c ch w.channel_at apart) ∙ topic)

instance pub Registered-Stable : Stable Registered
Registered-Stable = record {
  steady = record {
    rest = rest_registered;
    counted = λ w h. record { topics = h.topics; known = h.known; references = h.references };
    entered = λ c p w h.
        with_waiting-Registered c _ w
          (insert-IsDict (decimal w.ref) p (w.channel_at c).messages_waiting_for_ack
            (h.references c))
          h;
    settled = λ c ref w h.
        with_waiting-Registered c _ w
          (erase-IsDict ref (w.channel_at c).messages_waiting_for_ack (h.references c)) h;
  };
  removed = removed_registered;
  made = made_registered;
}
