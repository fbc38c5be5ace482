-- ===== src/Presence/Transform/Entries.antt =====
-- `_transform_state` over a whole payload: it raises exactly if a meta has no `phx_ref`.
use realtime_py.Prelude.{
  String, ◌≡◌, refl, Bool, true, false, ◌∙◌, Option, none, some, List, [], ◌∷◌, All, arith, eq_iff,
  str_eq, Option-cases, inl, inr, if◌then◌else◌,
}
use realtime_py.Prelude.Dict.{Dict, lookup, insert, IsDict, lookup-insert, insert-IsDict}
use realtime_py.Presence.Transform.{transform_meta, transform_metas, transform_all, transform_state}
use realtime_py.Presence.Transform.Fields.{field, transform_meta_fields, transform_meta_raises}

module _ {V : Type 0} where
  -- A presence holds the fields of its meta.
  pub record PresenceOf (meta presence : Dict V) : Type 0 where
    pub phx_ref : V
    pub has_ref : lookup "phx_ref" meta ≡ some phx_ref
    pub fields : (k : String) → lookup k presence ≡ field meta phx_ref k

  abbrev pub Matches : List (Dict V) → List (Dict V) → Type 0
  Matches [] [] = Unit
  Matches [] (p ∷ ps) = ⊥
  Matches (m ∷ ms) [] = ⊥
  Matches (m ∷ ms) (p ∷ ps) = PresenceOf m p × Matches ms ps

  abbrev pub MatchesEntry : Option (List (Dict V)) → Option (List (Dict V)) → Type 0
  MatchesEntry none none = Unit
  MatchesEntry none (some ps) = ⊥
  MatchesEntry (some ms) none = ⊥
  MatchesEntry (some ms) (some ps) = Matches ms ps

  abbrev pub HasRef : Dict V → Type 0
  HasRef meta = (r : V) × (lookup "phx_ref" meta ≡ some r)

  -- A payload of dicts.
  pub record IsPayload (raw : Dict (List (Dict V))) : Type 0 where
    pub dict : IsDict raw
    pub metas : All (λ l. All IsDict (l.1)) raw

  transform_metas_total :
      (ms : List (Dict V))
      → All IsDict ms
      → All HasRef ms
      → (ps : List (Dict V)) × (transform_metas ms ≡ some ps) × Matches ms ps
  unfolding transform_metas
  transform_metas_total [] d h = ([], refl, tt)
  transform_metas_total (m ∷ ms) d h =
      let (p, e, fields) = transform_meta_fields m (h.0.0) (d.0) (h.0.1) in
      let (ps, es, rest) = transform_metas_total ms (d.1) (h.1) in
      (p ∷ ps, rw (e, es), (record { phx_ref = h.0.0; has_ref = h.0.1; fields = fields }, rest))

  pub transform_metas_refs :
      (ms ps : List (Dict V)) → All IsDict ms → transform_metas ms ≡ some ps → All HasRef ms
  unfolding transform_metas
  transform_metas_refs [] ps d e = tt
  transform_metas_refs (m ∷ ms) ps d e = elim (Option-cases (lookup "phx_ref" m)) [
    | inl absent ↦ absurd (never (transform_meta_raises m (d.0) absent))
    | inr (r, found) ↦ elim (Option-cases (transform_metas ms)) [
      | inl failed ↦ absurd (ground arith)
      | inr (qs, q) ↦ ((r, found), transform_metas_refs ms qs (d.1) q)
    ]
  ]
    where
      never : transform_meta m ≡ none → ⊥
      never failed = ground arith

  OverrideEntry : Option (List (Dict V)) → Option (List (Dict V)) → Option (List (Dict V)) → Type 0
  OverrideEntry none old new = new ≡ old
  OverrideEntry (some ms) old new = MatchesEntry (some ms) new

  combine :
      (b : Bool) (raw acc new st : Option (List (Dict V))) (ms ps : List (Dict V))
      → (b ≡ true → raw ≡ none)
      → new ≡ (if b then some ps else acc)
      → OverrideEntry raw new st
      → Matches ms ps
      → OverrideEntry (if b then some ms else raw) acc st
  unfolding OverrideEntry
  combine true none acc new st ms ps h q r m = rw (r ∙ q) m
  combine true (some x) acc new st ms ps h q r m = absurd (ground (arith, h refl))
  combine false raw acc new st ms ps h q r m = rw q at r

  refs_of :
      (raw acc : Dict (List (Dict V)))
      → All (λ l. All IsDict (l.1)) raw
      → (st : Dict (List (Dict V))) → transform_all raw acc ≡ some st
      → All (λ l. All HasRef (l.1)) raw
  unfolding transform_all
  refs_of [] acc d st e = tt
  refs_of ((key, ms) ∷ raw) acc d st e = elim (Option-cases (transform_metas ms)) [
    | inl failed ↦ absurd (ground arith)
    | inr (ps, q) ↦ (
      transform_metas_refs ms ps (d.0) q,
      refs_of raw (insert key ps acc) (d.1) st (ground arith),
    )
  ]

  transform_all_total :
      (raw acc : Dict (List (Dict V)))
      → IsPayload raw
      → All (λ l. All HasRef (l.1)) raw
      → IsDict acc
      → (st : Dict (List (Dict V))) × (transform_all raw acc ≡ some st)
        × IsDict st
        × ((k : String) → OverrideEntry (lookup k raw) (lookup k acc) (lookup k st))
  unfolding transform_all lookup OverrideEntry
  transform_all_total [] acc d h a = (acc, refl, a, λ k. refl)
  transform_all_total ((key, ms) ∷ raw) acc d h a =
      let (ps, e, match) = transform_metas_total ms (d.metas.0) (h.0) in
      let (st, es, s, rest) =
        transform_all_total raw (insert key ps acc) (record { dict = d.dict.1; metas = d.metas.1 })
          (h.1) (insert-IsDict key ps acc a) in
      (
        st,
        rw (e, es),
        s,
        λ k.
            combine (str_eq key k) (lookup k raw) (lookup k acc) (lookup k (insert key ps acc))
              (lookup k st) ms ps (λ same. ground (arith, eq_iff key k, d.dict.0))
              (lookup-insert key k ps acc) (rest k) match,
      )

  -- `_transform_state` raises nothing if every meta has a `phx_ref`, and then each entry of the
  -- result holds, in order, a presence for each meta of the entry of its key.
  pub transform_state_total :
      (raw : Dict (List (Dict V)))
      → IsPayload raw
      → All (λ l. All HasRef (l.1)) raw
      → (st : Dict (List (Dict V))) × (transform_state raw ≡ some st)
        × IsDict st
        × ((k : String) → MatchesEntry (lookup k raw) (lookup k st))
  unfolding transform_state lookup
  transform_state_total raw d h =
      let (st, e, s, entries) = transform_all_total raw [] d h tt in
      (st, e, s, λ k. matched (lookup k raw) (lookup k st) (entries k))
    where
      matched : (o st : Option (List (Dict V))) → OverrideEntry o none st → MatchesEntry o st
      matched none st q = unfold OverrideEntry in rw q tt
      matched (some ms) st q = unfold OverrideEntry in q

  -- If it raises nothing, every meta has a `phx_ref`.
  pub transform_state_refs :
      (raw st : Dict (List (Dict V)))
      → IsPayload raw
      → transform_state raw ≡ some st
      → All (λ l. All HasRef (l.1)) raw
  unfolding transform_state
  transform_state_refs raw st d e = refs_of raw [] (d.metas) st e
