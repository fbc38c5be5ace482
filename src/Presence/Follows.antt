-- ===== src/Presence/Follows.antt =====
-- `_sync_state` makes the local state follow the server's.
use realtime_py.Prelude.{
  String, ◌≡◌, refl, false, Option, none, some, List, [], arith, Eq, elem, is_empty, ap, ◌∙◌,
}
use realtime_py.Prelude.Dict.{Dict, lookup, get_or, IsDict, All-of_lookup, lookup_All}
use realtime_py.Presence.{AsyncRealtimePresence, refs, missing, diff_all, sync_state}
use realtime_py.Presence.Refs.{elem-refs-synced, synced_nonempty}
use realtime_py.Presence.Diff.{
  missing-IsDict, lookup-missing, diff_all-IsDict, lookup-diff_all, part, join_part, leave_part,
}
use realtime_py.Presence.Synced.{
  IsState, listed, synced_state, missing_entry, present_entry, parts_entry, Filled,
  lookup-sync_diff, sync_diff-IsDict,
}

Filled-of_IsState :
    {P : Type 0} (state : Dict (List P)) (k : String) → IsState state → Filled (lookup k state)
Filled-of_IsState state k s ps q = lookup_All (λ ps. is_empty ps ≡ false) k ps state s.filled q

module _ {P R : Type 0} ⦃e : Eq R⦄ (ref : P → R) (p : AsyncRealtimePresence P) (new : Dict (List P))
    (s : IsState p.state) (n : IsState new) where
  abbrev diffs : Dict (List P) × Dict (List P)
  diffs = diff_all ref p.state new ([], missing new p.state)

  lookup-joins :
      (k : String)
      → lookup k diffs.0 ≡ part ref (join_part ref (lookup k p.state)) (lookup k new) none
  unfolding lookup
  lookup-joins k = (lookup-diff_all ref p.state new ([], missing new p.state) k n.dict).0

  lookup-leaves :
      (k : String)
      → lookup k diffs.1
        ≡ part ref
            (leave_part ref (lookup k p.state))
            (lookup k new)
            (missing_entry (lookup k p.state) (lookup k new))
  lookup-leaves k = ground (
    arith,
    lookup-diff_all ref p.state new ([], missing new p.state) k n.dict,
    lookup-missing new p.state k,
  )

  -- From filled dicts, `_sync_state` gives each key of the new state the presences that stay,
  -- followed by those that came, and removes every other key.
  pub lookup-sync_state :
      (k : String)
      → lookup k (sync_state ref p new).0.state ≡ synced_state ref (lookup k p.state) (lookup k new)
  unfolding sync_state
  lookup-sync_state k =
      let dicts =
        diff_all-IsDict ref p.state new ([], missing new p.state)
          (tt, missing-IsDict new p.state s.dict) in
      lookup-sync_diff ref p diffs.0 diffs.1 s.dict dicts.0 dicts.1
        (λ j gone q. rw (lookup-joins j) (
          present_entry ref (lookup j p.state) (lookup j new) gone (Filled-of_IsState p.state j s)
            (rw (lookup-leaves j) at q)))
        k
      ∙ rw (lookup-joins k, lookup-leaves k)
          (parts_entry ref (lookup k p.state) (lookup k new) (Filled-of_IsState new k n))

  -- The result is again a dict in which every key has presences.
  pub sync_state-IsState : IsState (sync_state ref p new).0.state
  sync_state-IsState = record {
    dict = dict;
    filled = All-of_lookup _ _ dict λ k ps q.
        filled (lookup k p.state) (lookup k new) ps (Filled-of_IsState new k n)
          (rw (lookup-sync_state k) at q);
  }
    where
      dict : IsDict (sync_state ref p new).0.state
      dict =
          unfold sync_state in
          let dicts =
            diff_all-IsDict ref p.state new ([], missing new p.state)
              (tt, missing-IsDict new p.state s.dict) in
          sync_diff-IsDict ref p diffs.0 diffs.1 s.dict dicts.0 dicts.1

      filled :
          (old new' : Option (List P)) (ps : List P)
          → Filled new'
          → synced_state ref old new' ≡ some ps
          → is_empty ps ≡ false
      filled old none ps h q = cc
      filled old (some value) ps h q =
          ground (arith, synced_nonempty ref (listed old) value (h value refl))

  -- If no key is without presences in the local state nor in the server's, `_sync_state` makes the
  -- references of each key in the local state exactly those in the server's.
  pub sync_state_follows :
      (k : String) (r : R)
      → elem r (refs ref (get_or k [] (sync_state ref p new).0.state))
        ≡ elem r (refs ref (get_or k [] new))
  sync_state_follows k r =
      ap (λ o. elem r (refs ref (listed o))) (lookup-sync_state k)
      ∙ same (lookup k p.state) (lookup k new)
    where
      same :
          (old new' : Option (List P))
          → elem r (refs ref (listed (synced_state ref old new'))) ≡ elem r (refs ref (listed new'))
      same old none = refl
      same old (some value) = elem-refs-synced ref (listed old) value r
