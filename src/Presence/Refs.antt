-- ===== src/Presence/Refs.antt =====
-- The reference sets that `_sync_state` and `_sync_diff` compute, and the lists filtered by them.
use realtime_py.Prelude.{
  ◌≡◌, refl, Bool, true, false, not, ◌&&◌, ◌||◌, List, [], ◌∷◌, ◌++◌, arith, Eq, is_empty, keep,
  elem, All,
}
use realtime_py.Presence.{refs, without}

module _ {ℓ} {A : Type ℓ} where
  pub keep_congr : (f g : A → Bool) (xs : List A) → All (λ x. f x ≡ g x) xs → keep f xs ≡ keep g xs
  keep_congr f g [] h = refl
  keep_congr f g (x ∷ xs) h = ground (arith, keep_congr f g xs h.1)

  pub keep-All : (f : A → Bool) (xs : List A) → All (λ x. f x ≡ true) xs → keep f xs ≡ xs
  keep-All f [] h = refl
  keep-All f (x ∷ xs) h = ground (arith, keep-All f xs h.1)

  pub keep_none : (f : A → Bool) (xs : List A) → All (λ x. f x ≡ false) xs → keep f xs ≡ []
  keep_none f [] h = refl
  keep_none f (x ∷ xs) h = ground (arith, keep_none f xs h.1)

  pub keep-append : (f : A → Bool) (xs ys : List A) → keep f (xs ++ ys) ≡ keep f xs ++ keep f ys
  keep-append f [] ys = refl
  keep-append f (x ∷ xs) ys = ground (arith, keep-append f xs ys)

  All-map {κ μ} :
      {P : A → Type κ} {Q : A → Type μ}
      → ((x : A) → P x → Q x)
      → (xs : List A) → All P xs
      → All Q xs
  All-map f [] h = tt
  All-map f (x ∷ xs) h = (f x h.0, All-map f xs h.1)

module _ {P R : Type 0} ⦃e : Eq R⦄ (ref : P → R) where
  pub elem-refs-without :
      (r : R) (rs : List R) (ps : List P)
      → elem r (refs ref (without ref rs ps)) ≡ (elem r (refs ref ps) && not (elem r rs))
  unfolding without
  elem-refs-without r rs [] = refl
  elem-refs-without r rs (p ∷ ps) = ground (arith, e.beq_iff (ref p) r, elem-refs-without r rs ps)

  pub elem-refs-append :
      (r : R) (ps qs : List P)
      → elem r (refs ref (ps ++ qs)) ≡ (elem r (refs ref ps) || elem r (refs ref qs))
  elem-refs-append r [] qs = refl
  elem-refs-append r (p ∷ ps) qs = ground (arith, elem-refs-append r ps qs)

  pub is_empty_of_elem : (r : R) (ps : List P) → elem r (refs ref ps) ≡ true → is_empty ps ≡ false
  is_empty_of_elem r [] h = cc
  is_empty_of_elem r (p ∷ ps) h = refl

  members_of :
      (qs ps : List P)
      → ((r : R) → elem r (refs ref ps) ≡ true → elem r (refs ref qs) ≡ true)
      → All (λ p. elem (ref p) (refs ref qs) ≡ true) ps
  members_of qs [] h = tt
  members_of qs (p ∷ ps) h = (
    h (ref p) (ground (arith, e.beq_iff (ref p) (ref p))),
    members_of qs ps (λ r m. h r (ground arith)),
  )

  -- Every presence of a list has its reference among those of the list.
  pub members : (ps : List P) → All (λ p. elem (ref p) (refs ref ps) ≡ true) ps
  members ps = members_of ps ps (λ r m. m)

  pub without-nil : (ps : List P) → without ref [] ps ≡ ps
  unfolding without
  without-nil [] = refl
  without-nil (p ∷ ps) = ground (arith, without-nil ps)

  module _ (current value : List P) where
    abbrev pub came : List P
    came = without ref (refs ref current) value

    abbrev pub went : List P
    went = without ref (refs ref value) current

    abbrev pub stayed : List P
    stayed = keep (λ p. elem (ref p) (refs ref value)) current

    -- Nothing that stays has the reference of a presence that came.
    pub without-came : without ref (refs ref came) current ≡ current
    unfolding without
    without-came = keep-All _ current (
        All-map (λ p m. ground (arith, elem-refs-without (ref p) (refs ref current) value)) current
          (members current))

    -- Nothing that came has the reference of a presence that went.
    pub without-went-came : without ref (refs ref went) came ≡ came
    unfolding without
    without-went-came = keep-All _ came (
        All-map
          (λ p m. ground (
            arith,
            elem-refs-without (ref p) (refs ref current) value,
            elem-refs-without (ref p) (refs ref value) current,
          ))
          came (members came))

    -- Without those that went, the current presences are those that stay.
    pub without-went : without ref (refs ref went) current ≡ stayed
    unfolding without
    without-went = keep_congr _ _ current (
        All-map (λ p m. ground (arith, elem-refs-without (ref p) (refs ref value) current)) current
          (members current))

    -- The references of what stays and what came are those of the new list.
    pub elem-refs-synced : (r : R) → elem r (refs ref (stayed ++ came)) ≡ elem r (refs ref value)
    elem-refs-synced r =
        rw (← without-went, elem-refs-append r (without ref (refs ref went) current) came)
          (ground (
            arith,
            elem-refs-without r (refs ref went) current,
            elem-refs-without r (refs ref value) current,
            elem-refs-without r (refs ref current) value,
          ))

    pub synced_nonempty : is_empty value ≡ false → is_empty (stayed ++ came) ≡ false
    synced_nonempty h =
        let (r, m) = first value h in
        is_empty_of_elem r (stayed ++ came) (rw (elem-refs-synced r) m)
      where
        first : (ps : List P) → is_empty ps ≡ false → (r : R) × (elem r (refs ref ps) ≡ true)
        first [] q = cc
        first (p ∷ ps) q = (ref p, (members (p ∷ ps)).0)

  pub without-append :
      (rs : List R) (ps qs : List P)
      → without ref rs (ps ++ qs) ≡ without ref rs ps ++ without ref rs qs
  unfolding without
  without-append rs ps qs = keep-append _ ps qs

  pub without_self : (ps : List P) → without ref (refs ref ps) ps ≡ []
  unfolding without
  without_self ps = keep_none _ ps (All-map (λ p m. ground arith) ps (members ps))
