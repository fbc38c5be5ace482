-- ===== src/Channel/Bindings.antt =====
-- The bindings of the server and the listeners, in `on_join_push_ok` of `subscribe` in
-- realtime/_async/channel.py.
use realtime_py.Prelude.{
  ℕ, zero, suc, ◌≡◌, ◌↔◌, refl, true, some, List, [], ◌∷◌, arith, get_elem?, Bool-cases, inl, inr,
  if◌then◌else◌,
}
use realtime_py.Types.{PostgresRowChange, PostgresChangesCallback}
use realtime_py.Channel.{binding_matches, bind_all}

-- At each index with a listener, the server has a binding that matches it.
abbrev pub Matched : List PostgresChangesCallback → List PostgresRowChange → Type 0
Matched callbacks servers =
    (i : ℕ) (callback : PostgresChangesCallback)
    → get_elem? callbacks i ≡ some callback
    → (server : PostgresRowChange) × (get_elem? servers i ≡ some server)
      × (binding_matches server callback ≡ true)

bind_all-Matched :
    (callbacks : List PostgresChangesCallback) (servers : List PostgresRowChange)
    → (bind_all callbacks servers).1 ≡ true
    → Matched callbacks servers
unfolding bind_all
bind_all-Matched [] servers h i callback e = cc
bind_all-Matched (c ∷ cs) [] h i callback e = cc
bind_all-Matched (c ∷ cs) (s ∷ ss) h zero callback e = (s, refl, ground arith)
bind_all-Matched (c ∷ cs) (s ∷ ss) h (suc i) callback e =
    bind_all-Matched cs ss (ground arith) i callback e

Matched-bind_all :
    (callbacks : List PostgresChangesCallback) (servers : List PostgresRowChange)
    → Matched callbacks servers
    → (bind_all callbacks servers).1 ≡ true
unfolding bind_all
Matched-bind_all [] servers m = refl
Matched-bind_all (c ∷ cs) [] m = let (s, e, h) = m zero c refl in cc
Matched-bind_all (c ∷ cs) (s ∷ ss) m =
    let (s', e, h) = m zero c refl in
    let rest = Matched-bind_all cs ss (λ i callback e. m (suc i) callback e) in
    let same : s ≡ s' = cc e in let h' : binding_matches s c ≡ true = rw same h in ground arith

bound :
    (callbacks : List PostgresChangesCallback) (servers : List PostgresRowChange) (i : ℕ)
    (callback : PostgresChangesCallback) (server : PostgresRowChange)
    → (bind_all callbacks servers).1 ≡ true
    → get_elem? callbacks i ≡ some callback
    → get_elem? servers i ≡ some server
    → get_elem? (bind_all callbacks servers).0 i ≡ some (record callback { id = some server.id })
unfolding bind_all
bound [] servers i callback server h e e' = cc
bound (c ∷ cs) [] i callback server h e e' = cc
bound (c ∷ cs) (s ∷ ss) i callback server h e e' = elim (Bool-cases (binding_matches s c)) [
  | inl same ↦
      rw (bind_all, same, if◌then◌else◌)
        (at_index (λ j. bound cs ss j callback server (ground arith)) i e e')
  | inr other ↦ ground arith
]
  where
    at_index :
        ((j : ℕ)
          → get_elem? cs j ≡ some callback
          → get_elem? ss j ≡ some server
          → get_elem? (bind_all cs ss).0 j ≡ some (record callback { id = some server.id }))
        → (i : ℕ) → get_elem? (c ∷ cs) i ≡ some callback
        → get_elem? (s ∷ ss) i ≡ some server
        → get_elem? (record c { id = some s.id } ∷ (bind_all cs ss).0) i
          ≡ some (record callback { id = some server.id })
    at_index later zero e e' =
        let p : c ≡ callback = cc e in
        let q : s ≡ server = cc e' in λ k. some (record (p k) { id = some (q k).id })
    at_index later (suc i) e e' = later i e e'

-- All listeners for changes are bound exactly if at each index with a listener the server has a binding
-- that matches it; and then each listener gets the id of the binding at its index, and keeps the rest.
pub bind_all_lem :
    (callbacks : List PostgresChangesCallback) (servers : List PostgresRowChange)
    → (((bind_all callbacks servers).1 ≡ true) ↔ Matched callbacks servers)
      × ((i : ℕ) (callback : PostgresChangesCallback) (server : PostgresRowChange)
          → (bind_all callbacks servers).1 ≡ true
          → get_elem? callbacks i ≡ some callback
          → get_elem? servers i ≡ some server
          → get_elem? (bind_all callbacks servers).0 i
            ≡ some (record callback { id = some server.id }))
bind_all_lem callbacks servers = (
  (bind_all-Matched callbacks servers, Matched-bind_all callbacks servers),
  bound callbacks servers,
)
