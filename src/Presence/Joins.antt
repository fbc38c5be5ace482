-- ===== src/Presence/Joins.antt =====
-- The first loop of `_sync_diff`, key by key.
use realtime_py.Prelude.{
  ℕ, String, ◌≡◌, refl, Option, none, some, List, [], ◌∷◌, ◌++◌, arith, eq_iff, Eq, if◌then◌else◌,
  str_eq, inl, inr, Bool-cases, is_empty,
}
use realtime_py.Prelude.Dict.{
  Dict, lookup, get_or, insert, IsDict, lookup-insert, lookup-insert_self, insert-IsDict,
}
use realtime_py.Presence.{Call, refs, without, join_key, join_all}

module _ {P R : Type 0} ⦃e : Eq R⦄ (ref : P → R) where
  -- What a join makes of the presences of its key.
  abbrev pub merge : List P → List P → List P
  merge current new = without ref (refs ref new) current ++ new

  -- What the joins make of the entry of a key.
  abbrev pub joined_entry : Option (List P) → Option (List P) → Option (List P)
  joined_entry none old = old
  joined_entry (some new) none = some new
  joined_entry (some new) (some current) = some (merge current new)

  -- One round writes the entry of its key and no other.
  pub lookup-join_key :
      (state : Dict (List P)) (key k : String) (new : List P)
      → lookup k (join_key ref state key new)
        ≡ (if str_eq key k then joined_entry (some new) (lookup key state) else lookup k state)
  unfolding join_key without
  lookup-join_key state key k new = ground (
    arith,
    eq_iff key k,
    lookup-insert_self key new state,
    lookup-insert key k new state,
    lookup-insert key k (merge (get_or key [] state) new) (insert key new state),
  )

  pub join_key-IsDict :
      (state : Dict (List P)) (key : String) (new : List P)
      → IsDict state
      → IsDict (join_key ref state key new)
  unfolding join_key
  join_key-IsDict state key new h = elim (Bool-cases (is_empty (get_or key [] state))) [
    | inl e ↦ rw e (insert-IsDict key new state h)
    | inr e ↦ rw e (insert-IsDict key _ _ (insert-IsDict key new state h))
  ]

  pub join_all-IsDict :
      (f : Option ℕ) (joins state : Dict (List P)) (calls : List (Call P))
      → IsDict state
      → IsDict (join_all ref f joins state calls).0
  unfolding join_all
  join_all-IsDict f [] state calls h = h
  join_all-IsDict f ((key, new) ∷ joins) state calls h =
      join_all-IsDict f joins _ _ (join_key-IsDict state key new h)

  -- If no key joins twice, the whole loop makes of every entry what the join of its key, if there is
  -- one, makes of it.
  pub lookup-join_all :
      (f : Option ℕ) (joins state : Dict (List P)) (calls : List (Call P)) (k : String)
      → IsDict joins
      → lookup k (join_all ref f joins state calls).0
        ≡ joined_entry (lookup k joins) (lookup k state)
  unfolding join_all lookup
  lookup-join_all f [] state calls k h = refl
  lookup-join_all f ((key, new) ∷ joins) state calls k h =
      rw
        (
          lookup-join_all f joins (join_key ref state key new) _ k h.1,
          lookup-join_key state key k new,
        )
        (ground (arith, eq_iff key k))
