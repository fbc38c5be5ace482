-- ===== src/Presence/Synced.antt =====
-- The state that `_sync_state` and `_sync_diff` reach.
use mathlib.Core.List.{append-nil}
use mathlib.Core.Path.{ap₂}
use realtime_py.Prelude.{
  or_else, String, ◌≡◌, refl, false, Option, none, some, List, [], ◌∷◌, ◌++◌, arith, Eq, is_empty,
  All, ap, ◌∙◌,
}
use realtime_py.Prelude.Dict.{Dict, lookup, IsDict, All-of_lookup}
use realtime_py.Presence.{AsyncRealtimePresence, refs, without, sync_diff, join_all}
use realtime_py.Presence.Refs.{
  came, went, stayed, without-nil, without-came, without-went-came, without-went, without-append,
  without_self, synced_nonempty,
}
use realtime_py.Presence.Joins.{joined_entry, join_all-IsDict, lookup-join_all}
use realtime_py.Presence.Leaves.{left_entry, nonempty, Present, leave_all-IsDict, lookup-leave_all}
use realtime_py.Presence.Diff.{join_part, leave_part, part}

-- An invariant of the presence state: a dict, with no key that has no presences.
pub record IsState {P : Type 0} (state : Dict (List P)) : Type 0 where
  pub dict : IsDict state
  pub filled : All (λ l. is_empty (l.1) ≡ false) state

-- The presences of a key that has an entry.
abbrev pub listed : {P : Type 0} → Option (List P) → List P
listed none = []
listed (some ps) = ps

module _ {P : Type 0} where
  abbrev pub Filled : Option (List P) → Type 0
  Filled entry = (ps : List P) → entry ≡ some ps → is_empty ps ≡ false

  abbrev pub missing_entry : Option (List P) → Option (List P) → Option (List P)
  missing_entry old none = old
  missing_entry old (some value) = none

  or_else-none : (o : Option (List P)) → or_else o none ≡ o
  or_else-none none = refl
  or_else-none (some a) = refl

module _ {P R : Type 0} ⦃e : Eq R⦄ (ref : P → R) where
  -- What the server's list makes of the presences of a key: those with a listed reference stay,
  -- in order, and the listed ones with a new reference follow.
  abbrev pub synced : List P → List P → List P
  synced current value = stayed ref current value ++ came ref current value

  joined_part :
      (current new : List P)
      → without ref (refs ref new) current ≡ current
      → joined_entry ref (nonempty new) (some current) ≡ some (current ++ new)
  joined_part current [] h = rw append-nil
  joined_part current (p ∷ ps) h = rw h

  left_part :
      (gone ps : List P)
      → is_empty (without ref (refs ref gone) ps) ≡ false
      → left_entry ref (nonempty gone) (some ps) ≡ some (without ref (refs ref gone) ps)
  left_part [] ps h = rw (without-nil ref ps)
  left_part (q ∷ qs) ps h = rw h

  without-went-joined :
      (current value : List P)
      → without ref (refs ref (went ref current value)) (current ++ came ref current value)
        ≡ synced current value
  without-went-joined current value =
      without-append ref (refs ref (went ref current value)) current (came ref current value)
      ∙ ap₂ ◌++◌ (without-went ref current value) (without-went-came ref current value)

  -- The parts of one key, joined and left in turn, make its entry the synced list.
  synced_entry :
      (old : Option (List P)) (value : List P)
      → is_empty value ≡ false
      → left_entry ref (leave_part ref old value) (joined_entry ref (join_part ref old value) old)
        ≡ some (synced (listed old) value)
  unfolding without
  synced_entry none value h = rw (without-nil ref value)
  synced_entry (some []) value h = simp (without-nil ref value)
  synced_entry (some (p ∷ ps)) value h =
      let current = p ∷ ps in
      let e2 = without-went-joined current value in
      rw (joined_part current (came ref current value) (without-came ref current value)) (
        left_part (went ref current value) (current ++ came ref current value)
          (rw e2 (synced_nonempty ref current value h))
        ∙ ap some e2)

  module _ (p : AsyncRealtimePresence P) (joins leaves : Dict (List P)) (d : IsDict p.state)
      (dj : IsDict joins) (dl : IsDict leaves) where
    abbrev after_joins : Dict (List P)
    after_joins = (join_all ref p.on_join_callback joins p.state []).0

    Present-after_joins :
        ((k : String) (gone : List P)
          → lookup k leaves ≡ some gone
          → is_empty (listed (joined_entry ref (lookup k joins) (lookup k p.state))) ≡ false)
        → Present ref after_joins leaves
    Present-after_joins h = All-of_lookup _ leaves dl λ k gone q.
        ground (arith, lookup-join_all ref p.on_join_callback joins p.state [] k dj, h k gone q)

    -- If every key that leaves has presences once the joins are merged, `_sync_diff` makes of every
    -- entry what its join and then its leave make of it.
    pub lookup-sync_diff :
        ((k : String) (gone : List P)
          → lookup k leaves ≡ some gone
          → is_empty (listed (joined_entry ref (lookup k joins) (lookup k p.state))) ≡ false)
        → (k : String)
        → lookup k (sync_diff ref p joins leaves).0.state
          ≡ left_entry ref (lookup k leaves) (joined_entry ref (lookup k joins) (lookup k p.state))
    unfolding sync_diff
    lookup-sync_diff h k =
        lookup-leave_all ref p.on_leave_callback leaves after_joins _ k
          (join_all-IsDict ref p.on_join_callback joins p.state [] d) dl (Present-after_joins h)
        ∙ ap (left_entry ref (lookup k leaves))
            (lookup-join_all ref p.on_join_callback joins p.state [] k dj)

    -- The state is a dict again.
    pub sync_diff-IsDict : IsDict (sync_diff ref p joins leaves).0.state
    unfolding sync_diff
    sync_diff-IsDict = leave_all-IsDict ref _ leaves _ _ (join_all-IsDict ref _ joins p.state [] d)

  -- What the state of the server makes of an entry.
  abbrev pub synced_state : Option (List P) → Option (List P) → Option (List P)
  synced_state old none = none
  synced_state old (some value) = some (synced (listed old) value)

  -- No key that leaves is without presences.
  pub present_entry :
      (old new : Option (List P)) (gone : List P)
      → Filled old
      → part ref (leave_part ref old) new (missing_entry old new) ≡ some gone
      → is_empty (listed (joined_entry ref (part ref (join_part ref old) new none) old)) ≡ false
  present_entry none none gone h q = cc
  present_entry (some ps) none gone h q = h ps refl
  present_entry none (some value) gone h q = cc
  present_entry (some []) (some value) gone h q = cc
  present_entry (some (p ∷ ps)) (some value) gone h q =
      let current = p ∷ ps in
      ground (arith, joined_part current (came ref current value) (without-came ref current value))

  pub parts_entry :
      (old new : Option (List P))
      → Filled new
      → left_entry ref
          (part ref (leave_part ref old) new (missing_entry old new))
          (joined_entry ref (part ref (join_part ref old) new none) old)
        ≡ synced_state old new
  parts_entry none none h = refl
  parts_entry (some ps) none h = rw (without_self ref ps)
  parts_entry old (some value) h =
      rw (or_else-none (leave_part ref old value), or_else-none (join_part ref old value))
        (synced_entry old value (h value refl))
