-- ===== src/References.antt =====
-- An invariant of the references under which pushes wait for a reply: realtime/_async/push.py enters
-- them, channel.py takes them off, and `_make_ref` of client.py makes them.
pub mod Run
use realtime_py.Prelude.{
  ℕ, ◌+◌, ◌≤◌, ◌≡◌, ◌∙◌, refl, sym, String, false, true, [], ◌∷◌, arith, eq_iff, ◌==◌, ==_iff,
  str_eq, if◌then◌else◌, Bool-cases, inl, inr,
}
use realtime_py.Prelude.Dict.{Dict, lookup, contains, insert, erase, lookup-insert}
use realtime_py.Prelude.Decimal.{decimal}
use realtime_py.World.{World, Channel, put_at}
use realtime_py.Stable.{Same, Stable, with_waiting, with_channel}

-- A push waits under the reference in the channel.
abbrev pub Waits : Channel → String → Type 0
Waits ch ref = contains ref ch.messages_waiting_for_ack ≡ true

abbrev pub PastOf : (ℕ → Channel) → ℕ → Type 0
PastOf chs made =
    (c : ℕ) (ref : String) → Waits (chs c) ref → (k : ℕ) × (k ≤ made) × (ref ≡ decimal k)

-- Each reference that waits is the text of a number up to the counter of the client.
pub record Past (w : World) : Type 0 where
  pub past : PastOf w.channel_at w.ref

contains-erase :
    {V : Type 0} (k j : String) (d : Dict V) → contains j (erase k d) ≡ true → contains j d ≡ true
unfolding lookup erase
contains-erase k j [] h = h
contains-erase k j ((i, w) ∷ d) h = ground (arith, contains-erase k j d)

contains-insert :
    {V : Type 0} (k j : String) (v : V) (d : Dict V)
    → str_eq k j ≡ false
    → contains j (insert k v d) ≡ true
    → contains j d ≡ true
contains-insert k j v d other h = ground (arith, lookup-insert k j v d)

put_past :
    (chs : ℕ → Channel) (made c : ℕ) (ch : Channel)
    → PastOf chs made
    → ((ref : String) → Waits ch ref → (k : ℕ) × (k ≤ made) × (ref ≡ decimal k))
    → PastOf (put_at c ch chs) made
unfolding put_at
put_past chs made c ch h new d ref wait = elim (Bool-cases (c == d)) [
  | inl same ↦ new ref (rw (same, if◌then◌else◌) at wait)
  | inr other ↦ h d ref (rw (other, if◌then◌else◌) at wait)
]

rest_past : (w v : World) → Same w v → Past w → Past v
rest_past w v same h = record {
  past = λ c ref wait.
      let (k, below, e) = h.past c ref (rw (same.waiting c) at wait) in (k, rw same.ref below, e);
}

counted_past : (w : World) → Past w → Past (record w { ref = w.ref + 1 })
counted_past w h = record {
  past = λ c ref wait. let (k, below, e) = h.past c ref wait in (k, omega arith, e);
}

entered_past :
    (c p : ℕ) (w : World)
    → Past w
    → Past (with_waiting (insert (decimal w.ref) p (w.channel_at c).messages_waiting_for_ack) c w)
entered_past c p w h = record {
  past = put_past w.channel_at w.ref c _ h.past (λ ref wait.
      elim (Bool-cases (str_eq (decimal w.ref) ref)) [
        | inl newest ↦ (w.ref, omega arith, sym ((eq_iff (decimal w.ref) ref).0 newest))
        | inr older ↦ h.past c ref (
            contains-insert (decimal w.ref) ref p (w.channel_at c).messages_waiting_for_ack older
              wait)
      ]);
}

settled_past :
    (c : ℕ) (ref : String) (w : World)
    → Past w
    → Past (with_waiting (erase ref (w.channel_at c).messages_waiting_for_ack) c w)
settled_past c ref w h = record {
  past =
      put_past w.channel_at w.ref c _ h.past (λ r wait.
        h.past c r (contains-erase ref r (w.channel_at c).messages_waiting_for_ack wait));
}

made_past :
    (ch : Channel) (w : World)
    → ch.messages_waiting_for_ack ≡ []
    → Past w
    → Past (with_channel ch w)
unfolding lookup
made_past ch w empty h = record {
  past =
      put_past w.channel_at w.ref w.next_channel ch h.past
        (λ ref wait. absurd (nothing_waits ref (rw empty at wait)));
}
  where
    nothing_waits : (ref : String) → contains {V = ℕ} ref [] ≡ true → ⊥
    nothing_waits ref e = cc

instance pub Past-Stable : Stable Past
Past-Stable = record {
  steady = record {
    rest = rest_past;
    counted = counted_past;
    entered = entered_past;
    settled = settled_past;
  };
  removed = λ topic w h. record { past = h.past };
  made = made_past;
}
