-- ===== src/Presence/Diff.antt =====
-- The differences that `_sync_state` computes, key by key.
use realtime_py.Prelude.{
  String, ◌≡◌, refl, Option, none, some, List, [], ◌∷◌, arith, eq_iff, Eq, str_eq, inl, inr,
  Bool-cases, is_empty, if◌then◌else◌, or_else,
}
use realtime_py.Prelude.Dict.{Dict, lookup, get_or, IsDict, lookup-insert, insert-IsDict}
use realtime_py.Presence.{insert_some, diff_key, diff_all, missing}
use realtime_py.Presence.Refs.{came, went}
use realtime_py.Presence.Leaves.{nonempty}

module _ {P : Type 0} where
  lookup-insert_some :
      (key k : String) (xs : List P) (d : Dict (List P))
      → lookup k (insert_some key xs d)
        ≡ (if str_eq key k then or_else (nonempty xs) (lookup k d) else lookup k d)
  unfolding insert_some
  lookup-insert_some key k [] d = ground arith
  lookup-insert_some key k (x ∷ xs) d = ground (arith, lookup-insert key k (x ∷ xs) d)

  insert_some-IsDict :
      (key : String) (xs : List P) (d : Dict (List P)) → IsDict d → IsDict (insert_some key xs d)
  unfolding insert_some
  insert_some-IsDict key [] d h = h
  insert_some-IsDict key (x ∷ xs) d h = insert-IsDict key (x ∷ xs) d h

  -- The leaves begin as the entries whose key the new state lacks.
  pub lookup-missing :
      (new items : Dict (List P)) (k : String)
      → lookup k (missing new items) ≡ elim (lookup k new) [ none ↦ lookup k items | some _ ↦ none ]
  unfolding missing lookup
  lookup-missing new [] k = ground arith
  lookup-missing new ((j, v) ∷ items) k = ground (arith, eq_iff j k, lookup-missing new items k)

  pub missing-IsDict : (new items : Dict (List P)) → IsDict items → IsDict (missing new items)
  unfolding missing
  missing-IsDict new [] h = tt
  missing-IsDict new ((j, v) ∷ items) h =
      ground (arith, missing-IsDict new items h.1, lookup-missing new items j)

module _ {P R : Type 0} ⦃e : Eq R⦄ (ref : P → R) where
  -- What the diff puts into `joins` and into `leaves` for one key of the new state.
  abbrev pub join_part : Option (List P) → List P → Option (List P)
  join_part none value = some value
  join_part (some []) value = some value
  join_part (some (p ∷ ps)) value = nonempty (came ref (p ∷ ps) value)

  abbrev pub leave_part : Option (List P) → List P → Option (List P)
  leave_part none value = none
  leave_part (some []) value = none
  leave_part (some (p ∷ ps)) value = nonempty (went ref (p ∷ ps) value)

  abbrev pub part : (List P → Option (List P)) → Option (List P) → Option (List P) → Option (List P)
  part f none rest = rest
  part f (some value) rest = or_else (f value) rest

  abbrev pub AreDicts : Dict (List P) × Dict (List P) → Type 0
  AreDicts acc = IsDict acc.0 × IsDict acc.1

  diff_key-IsDict :
      (state : Dict (List P)) (key : String) (value : List P) (acc : Dict (List P) × Dict (List P))
      → AreDicts acc
      → AreDicts (diff_key ref state key value acc)
  unfolding diff_key
  diff_key-IsDict state key value (joins, leaves) h =
      elim (Bool-cases (is_empty (get_or key [] state))) [
        | inl q ↦ rw (q, diff_key) (insert-IsDict key value joins h.0, h.1)
        | inr q ↦
            rw (q, diff_key)
              (insert_some-IsDict key _ joins h.0, insert_some-IsDict key _ leaves h.1)
      ]

  pub diff_all-IsDict :
      (state items : Dict (List P)) (acc : Dict (List P) × Dict (List P))
      → AreDicts acc
      → AreDicts (diff_all ref state items acc)
  unfolding diff_all
  diff_all-IsDict state [] acc h = h
  diff_all-IsDict state ((key, value) ∷ items) acc h =
      diff_all-IsDict state items _ (diff_key-IsDict state key value acc h)

  lookup-diff_key :
      (state : Dict (List P)) (key k : String) (value : List P)
      (acc : Dict (List P) × Dict (List P))
      → (lookup k (diff_key ref state key value acc).0 ≡ (
          if str_eq key k
          then or_else (join_part (lookup key state) value) (lookup k acc.0)
          else lookup k acc.0))
        × (lookup k (diff_key ref state key value acc).1 ≡ (
            if str_eq key k
            then or_else (leave_part (lookup key state) value) (lookup k acc.1)
            else lookup k acc.1))
  unfolding diff_key
  lookup-diff_key state key k value (joins, leaves) =
      let current = get_or key [] state in
      ground (
        arith,
        lookup-insert key k value joins,
        lookup-insert_some key k (came ref current value) joins,
        lookup-insert_some key k (went ref current value) leaves,
      )

  -- The loop of `_sync_state` puts into the two dicts what the part of each key says.
  pub lookup-diff_all :
      (state items : Dict (List P)) (acc : Dict (List P) × Dict (List P)) (k : String)
      → IsDict items
      → (lookup k (diff_all ref state items acc).0
          ≡ part (join_part (lookup k state)) (lookup k items) (lookup k acc.0))
        × (lookup k (diff_all ref state items acc).1
            ≡ part (leave_part (lookup k state)) (lookup k items) (lookup k acc.1))
  unfolding diff_all lookup
  lookup-diff_all state [] acc k h = (refl, refl)
  lookup-diff_all state ((key, value) ∷ items) acc k h = ground (
    arith,
    eq_iff key k,
    lookup-diff_key state key k value acc,
    lookup-diff_all state items (diff_key ref state key value acc) k h.1,
  )
