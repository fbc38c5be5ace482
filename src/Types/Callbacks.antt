-- ===== src/Types/Callbacks.antt =====
-- When the callbacks of realtime/types.py call the user's function.
use realtime_py.Prelude.{
  ℕ, ◌≡◌, refl, ◌≢◌, Bool, true, false, ◌&&◌, ◌||◌, Option, none, some, List, [], ◌∷◌, arith, ◌⊎◌,
  inl, inr, Bool-cases,
}
use realtime_py.Types.{
  RealtimePostgresChangesListenEvent, all_events, event_eq, PostgresChangesPayload,
  PostgresChangesCallback, contains_id, id_matches, call_postgres,
}

-- The listener accepts the payload: its event is that of the payload or `*`, and the server bound it
-- to an id that the payload names, which is not 0.
pub data Accepts (self : PostgresChangesCallback) (payload : PostgresChangesPayload) : Type 0 where
  accepts :
      (i : ℕ)
      → self.id ≡ some i
      → i ≢ 0
      → contains_id i payload.ids ≡ true
      → (self.event ≡ payload.type_) ⊎ (self.event ≡ all_events)
      → Accepts self payload

event_eq_sound : (x y : RealtimePostgresChangesListenEvent) → event_eq x y ≡ true → x ≡ y
event_eq_sound x y h = ground arith

event_eq_refl : (x : RealtimePostgresChangesListenEvent) → event_eq x x ≡ true
event_eq_refl x = ground arith

id_matches_lem :
    (o : Option ℕ) (ids : List ℕ)
    → id_matches o ids ≡ true
    → (i : ℕ) × (o ≡ some i) × (i ≢ 0) × (contains_id i ids ≡ true)
unfolding id_matches
id_matches_lem none ids h = cc
id_matches_lem (some i) ids h = (i, refl, ground arith, ground arith)

event_lem :
    (x y : RealtimePostgresChangesListenEvent)
    → (event_eq x y || event_eq x all_events) ≡ true
    → (x ≡ y) ⊎ (x ≡ all_events)
event_lem x y h = elim (Bool-cases (event_eq x y)) [
  | inl same ↦ inl (event_eq_sound x y same)
  | inr other ↦ inr (event_eq_sound x all_events (rw other at h))
]

bound : (i : ℕ) (ids : List ℕ) → i ≢ 0 → contains_id i ids ≡ true → id_matches (some i) ids ≡ true
unfolding id_matches
bound i ids nonzero inside = ground arith

-- A listener for changes calls its function exactly once if it accepts the payload, and else not at
-- all.
pub call_postgres_lem :
    (self : PostgresChangesCallback) (payload : PostgresChangesPayload)
    → (Accepts self payload → call_postgres self payload ≡ (self.callback, payload) ∷ [])
      × ((Accepts self payload → ⊥) → call_postgres self payload ≡ [])
unfolding call_postgres
call_postgres_lem self payload = (called, silent)
  where
    event_matches : Bool
    event_matches = event_eq self.event payload.type_ || event_eq self.event all_events

    or_true : (b : Bool) → (b || true) ≡ true
    or_true true = refl
    or_true false = refl

    fires : (self.event ≡ payload.type_) ⊎ (self.event ≡ all_events) → event_matches ≡ true
    fires (inl e) = rw (e, event_eq_refl payload.type_) refl
    fires (inr e) = rw e (or_true (event_eq all_events payload.type_))

    called : Accepts self payload → call_postgres self payload ≡ (self.callback, payload) ∷ []
    called (accepts i named nonzero inside e) =
        rw (named, bound i payload.ids nonzero inside, fires e) refl

    silent : (Accepts self payload → ⊥) → call_postgres self payload ≡ []
    silent rejects = elim (Bool-cases (id_matches self.id payload.ids && event_matches)) [
      | inr quiet ↦ rw quiet refl
      | inl loud ↦ absurd (rejects (both loud))
    ]
      where
        both : (id_matches self.id payload.ids && event_matches) ≡ true → Accepts self payload
        both loud =
            let (i, named, nonzero, inside) = id_matches_lem self.id payload.ids (ground arith) in
            accepts i named nonzero inside (event_lem self.event payload.type_ (ground arith))
