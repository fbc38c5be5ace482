-- ===== src/Presence/Leaves.antt =====
-- The second loop of `_sync_diff`, key by key, and where its `break` ends it.
use realtime_py.Prelude.{
  ℕ, String, ◌≡◌, refl, false, Option, none, some, List, [], ◌∷◌, arith, eq_iff, Eq, str_eq, inl,
  inr, Bool-cases, is_empty, All, if◌then◌else◌,
}
use realtime_py.Prelude.Dict.{
  Dict, lookup, get_or, insert, IsDict, lookup-insert, lookup-erase, insert-IsDict, erase-IsDict,
}
use realtime_py.Presence.{Call, refs, without, leave_key, leave_all}

abbrev pub nonempty {ℓ} : {A : Type ℓ} → List A → Option (List A)
nonempty xs = if is_empty xs then none else some xs

module _ {P R : Type 0} ⦃e : Eq R⦄ (ref : P → R) where
  -- What the leaves make of the entry of a key.
  abbrev pub left_entry : Option (List P) → Option (List P) → Option (List P)
  left_entry none old = old
  left_entry (some gone) none = none
  left_entry (some gone) (some current) = nonempty (without ref (refs ref gone) current)

  -- One round writes or deletes the entry of its key, and touches no other.
  pub lookup-leave_key :
      (state : Dict (List P)) (key k : String) (gone : List P)
      → IsDict state
      → lookup k (leave_key ref state key gone) ≡ (
          if str_eq key k
          then nonempty (without ref (refs ref gone) (get_or key [] state))
          else lookup k state)
  unfolding leave_key
  lookup-leave_key state key k gone h =
      let current = without ref (refs ref gone) (get_or key [] state) in
      ground (
        arith,
        eq_iff key k,
        lookup-insert key k current state,
        lookup-erase key k (insert key current state) (insert-IsDict key current state h),
      )

  pub leave_key-IsDict :
      (state : Dict (List P)) (key : String) (gone : List P)
      → IsDict state
      → IsDict (leave_key ref state key gone)
  unfolding leave_key
  leave_key-IsDict state key gone h =
      let current = without ref (refs ref gone) (get_or key [] state) in
      elim (Bool-cases (is_empty current)) [
        | inl q ↦ rw q (erase-IsDict key _ (insert-IsDict key current state h))
        | inr q ↦ rw q (insert-IsDict key current state h)
      ]

  pub leave_all-IsDict :
      (f : Option ℕ) (leaves state : Dict (List P)) (calls : List (Call P))
      → IsDict state
      → IsDict (leave_all ref f leaves state calls).0
  unfolding leave_all
  leave_all-IsDict f [] state calls h = h
  leave_all-IsDict f ((key, gone) ∷ leaves) state calls h =
      elim (Bool-cases (is_empty (get_or key [] state))) [
        | inl q ↦ rw (q, leave_all) h
        | inr q ↦
            rw (q, leave_all) (leave_all-IsDict f leaves _ _ (leave_key-IsDict state key gone h))
      ]

  -- The key of each leave has presences, so that the loop does not break off.
  abbrev pub Present : Dict (List P) → Dict (List P) → Type 0
  Present state = All (λ l. is_empty (get_or (l.0) [] state) ≡ false)

  Present-leave_key :
      (state : Dict (List P)) (key : String) (gone : List P) (leaves : Dict (List P))
      → IsDict state
      → lookup key leaves ≡ none
      → Present state leaves
      → Present (leave_key ref state key gone) leaves
  unfolding lookup
  Present-leave_key state key gone [] h absent p = tt
  Present-leave_key state key gone ((j, g) ∷ leaves) h absent p = ground (
    arith,
    eq_iff key j,
    eq_iff j key,
    lookup-leave_key state key j gone h,
    Present-leave_key state key gone leaves h,
  )

  -- If the state and the leaves list no key twice and no leaving key is without presences, the loop
  -- treats every entry by the leave of its key.
  pub lookup-leave_all :
      (f : Option ℕ) (leaves state : Dict (List P)) (calls : List (Call P)) (k : String)
      → IsDict state
      → IsDict leaves
      → Present state leaves
      → lookup k (leave_all ref f leaves state calls).0
        ≡ left_entry (lookup k leaves) (lookup k state)
  unfolding leave_all lookup
  lookup-leave_all f [] state calls k h d p = refl
  lookup-leave_all f ((key, gone) ∷ leaves) state calls k h d p =
      let next = leave_key ref state key gone in
      rw
        (
          p.0,
          leave_all,
          lookup-leave_all f leaves next _ k (leave_key-IsDict state key gone h) d.1
              (Present-leave_key state key gone leaves h d.0 p.1),
          lookup-leave_key state key k gone h,
        )
        (ground (arith, eq_iff key k))
