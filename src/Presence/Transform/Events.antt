-- ===== src/Presence/Transform/Events.antt =====
-- The two event handlers, from the payload to the state.
use realtime_py.Prelude.{
  String, ◌≡◌, refl, false, Option, none, some, List, [], ◌∷◌, ◌++◌, All, arith, Eq, elem, eq_iff,
  is_empty, map, ap, ◌∙◌, option_eq,
}
use realtime_py.Prelude.Dict.{Dict, lookup, get_or, All-of_lookup, lookup_All}
use realtime_py.Presence.{AsyncRealtimePresence, Call, call_sync, sync_state}
use realtime_py.Presence.Synced.{IsState, listed}
use realtime_py.Presence.Follows.{sync_state-IsState, sync_state_follows}
use realtime_py.Presence.Transform.{transform_state, presence_ref, on_state_event}
use realtime_py.Presence.Transform.Fields.{override}
use realtime_py.Presence.Transform.Entries.{
  PresenceOf, Matches, MatchesEntry, HasRef, IsPayload, transform_state_total,
}

module _ {V : Type 0} where
  -- The reference of a meta: its `phx_ref`, unless it has a field `presence_ref`.
  abbrev pub meta_ref : Dict V → Option V
  meta_ref meta = override (lookup "presence_ref" meta) (lookup "phx_ref" meta)

  PresenceOf-ref : (m p : Dict V) → PresenceOf m p → presence_ref p ≡ meta_ref m
  PresenceOf-ref m p h = ground (
    arith,
    h.fields "presence_ref",
    h.has_ref,
    eq_iff "phx_ref" "presence_ref",
    eq_iff "phx_ref_prev" "presence_ref",
    eq_iff "presence_ref" "presence_ref",
  )

  Matches-refs : (ms ps : List (Dict V)) → Matches ms ps → map presence_ref ps ≡ map meta_ref ms
  Matches-refs [] [] h = refl
  Matches-refs [] (p ∷ ps) h = absurd h
  Matches-refs (m ∷ ms) [] h = absurd h
  Matches-refs (m ∷ ms) (p ∷ ps) h = rw (PresenceOf-ref m p h.0, Matches-refs ms ps h.1)

  MatchesEntry-refs :
      (o s : Option (List (Dict V)))
      → MatchesEntry o s
      → map presence_ref (listed s) ≡ map meta_ref (listed o)
  MatchesEntry-refs none none h = refl
  MatchesEntry-refs none (some ps) h = absurd h
  MatchesEntry-refs (some ms) none h = absurd h
  MatchesEntry-refs (some ms) (some ps) h = Matches-refs ms ps h

  MatchesEntry-filled :
      (o : Option (List (Dict V))) (ps : List (Dict V))
      → ((ms : List (Dict V)) → o ≡ some ms → is_empty ms ≡ false)
      → MatchesEntry o (some ps)
      → is_empty ps ≡ false
  MatchesEntry-filled none ps f h = absurd h
  MatchesEntry-filled (some []) ps f h = absurd (ground (arith, f [] refl))
  MatchesEntry-filled (some (m ∷ ms)) [] f h = absurd h
  MatchesEntry-filled (some (m ∷ ms)) (p ∷ ps) f h = refl

  -- A state of the server: each meta has a `phx_ref`, and each key has metas.
  pub record IsRawState (raw : Dict (List (Dict V))) : Type 0 where
    pub payload : IsPayload raw
    pub has_refs : All (λ l. All HasRef (l.1)) raw
    pub filled : All (λ l. is_empty (l.1) ≡ false) raw

  transform_state-IsState :
      (raw : Dict (List (Dict V)))
      → IsRawState raw
      → (st : Dict (List (Dict V))) × (transform_state raw ≡ some st)
        × IsState st
        × ((k : String) → MatchesEntry (lookup k raw) (lookup k st))
  transform_state-IsState raw h =
      let (st, e, d, entries) = transform_state_total raw h.payload h.has_refs in
      (
        st,
        e,
        record {
          dict = d;
          filled = All-of_lookup _ st d λ k ps q.
              MatchesEntry-filled (lookup k raw) ps
                (λ ms found. lookup_All (λ ms. is_empty ms ≡ false) k ms raw h.filled found)
                (rw q at (entries k));
        },
        entries,
      )

module _ {V : Type 0} ⦃e : Eq V⦄ where
  -- A state event with a state of the server raises nothing; it ends with the call of the sync
  -- callback, in a state in which every key has presences, and for each key the references of the
  -- presences are exactly those of the metas.
  pub on_state_event_follows :
      (p : AsyncRealtimePresence (Dict V)) (raw : Dict (List (Dict V)))
      → IsState p.state
      → IsRawState raw
      → (p' : AsyncRealtimePresence (Dict V)) × (calls : List (Call (Dict V))) × (on_state_event p
            raw
          ≡ some (p', calls ++ call_sync p'.on_sync_callback))
        × IsState p'.state
        × ((k : String) (r : Option V)
            → elem r (map presence_ref (get_or k [] p'.state))
              ≡ elem r (map meta_ref (get_or k [] raw)))
  unfolding on_state_event
  on_state_event_follows p raw s h =
      let (st, q, n, entries) = transform_state-IsState raw h in
      (
        (sync_state presence_ref p st).0,
        (sync_state presence_ref p st).1,
        rw q,
        sync_state-IsState presence_ref p st s n,
        λ k r.
            sync_state_follows presence_ref p st s n k r
            ∙ ap (elem r) (MatchesEntry-refs (lookup k raw) (lookup k st) (entries k)),
      )
