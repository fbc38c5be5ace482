-- ===== src/Presence/Break.antt =====
-- The `break` of `_sync_diff`, at a key without presences.
use realtime_py.Prelude.{
  ℕ, String, ◌≡◌, true, Option, List, [], ◌∷◌, ◌++◌, arith, Eq, is_empty, Bool-cases, inl, inr,
}
use realtime_py.Prelude.Dict.{Dict, get_or}
use realtime_py.Presence.{AsyncRealtimePresence, Call, leave_all, sync_diff}

module _ {P R : Type 0} ⦃e : Eq R⦄ (ref : P → R) where
  leave_all-append :
      (f : Option ℕ) (before rest state : Dict (List P)) (calls : List (Call P)) (key : String)
      (gone : List P)
      → is_empty (get_or key [] (leave_all ref f before state calls).0) ≡ true
      → leave_all ref f (before ++ (key, gone) ∷ rest) state calls
        ≡ leave_all ref f before state calls
  unfolding leave_all
  leave_all-append f [] rest state calls key gone h = ground arith
  leave_all-append f ((k, g) ∷ before) rest state calls key gone h =
      elim (Bool-cases (is_empty (get_or k [] state))) [
        | inl q ↦ rw (q, leave_all)
        | inr q ↦
            rw (q, leave_all) (leave_all-append f before rest _ _ key gone (rw (q, leave_all) at h))
      ]

  -- If a leaving key has no presences when its turn comes, `_sync_diff` ends as if that leave and
  -- all leaves after it were not there: they stay in the state, and no leave callback is called.
  pub sync_diff_breaks :
      (p : AsyncRealtimePresence P) (joins before rest : Dict (List P)) (key : String)
      (gone : List P)
      → is_empty (get_or key [] (sync_diff ref p joins before).0.state) ≡ true
      → sync_diff ref p joins (before ++ (key, gone) ∷ rest) ≡ sync_diff ref p joins before
  unfolding sync_diff
  sync_diff_breaks p joins before rest key gone h =
      rw (leave_all-append p.on_leave_callback before rest _ _ key gone h)
