-- ===== src/Timer/Others.antt =====
-- The tasks of the table that a timer of realtime/_async/timer.py does not name.
use realtime_py.Prelude.{
  ℕ, zero, suc, ◌≡◌, ◌≢◌, refl, ap, Bool-cases, inl, inr, Option, none, some, [], ◌∷◌, ◌++◌,
  get_elem?,
}
use realtime_py.Timer.{
  TaskState, Task, Tasks, cancelled_state, is_done, update_task, state_of, cancel, Timer,
  reset_task, reset,
}

module _ {J : Type 0} where
  get_elem?-append_left :
      (ts us : Tasks J) (i : ℕ) (t : Task J)
      → get_elem? ts i ≡ some t
      → get_elem? (ts ++ us) i ≡ some t
  get_elem?-append_left [] us i t h = cc
  get_elem?-append_left (x ∷ ts) us zero t h = h
  get_elem?-append_left (x ∷ ts) us (suc i) t h = get_elem?-append_left ts us i t h

  get_elem?-update_task :
      (f : TaskState → TaskState) (i j : ℕ) (ts : Tasks J)
      → j ≢ i
      → get_elem? (update_task f j ts) i ≡ get_elem? ts i
  unfolding update_task
  get_elem?-update_task f i j [] other = refl
  get_elem?-update_task f zero zero (t ∷ ts) other = absurd (other refl)
  get_elem?-update_task f (suc i) zero (t ∷ ts) other = refl
  get_elem?-update_task f zero (suc j) (t ∷ ts) other = refl
  get_elem?-update_task f (suc i) (suc j) (t ∷ ts) other =
      get_elem?-update_task f i j ts (λ e. other (ap suc e))

  -- A task that the timer does not name is left as it is by a reset.
  reset_task-others :
      (o : Option ℕ) (ts : Tasks J) (i : ℕ)
      → o ≢ some i
      → get_elem? (reset_task o ts).1 i ≡ get_elem? ts i
  unfolding reset_task cancel
  reset_task-others none ts i other = refl
  reset_task-others (some j) ts i other = elim (Bool-cases (is_done (state_of j ts))) [
    | inl done ↦ rw (reset_task, done) refl
    | inr live ↦
        rw (reset_task, live)
          (get_elem?-update_task cancelled_state i j ts (λ e. other (ap some e)))
  ]

  pub reset-others :
      (t : Timer) (ts us : Tasks J) (i : ℕ) (task : Task J)
      → t.timer ≢ some i
      → get_elem? ts i ≡ some task
      → get_elem? ((reset t ts).1 ++ us) i ≡ some task
  unfolding reset
  reset-others t ts us i task other h =
      get_elem?-append_left (reset t ts).1 us i task
        (rw (reset, reset_task-others t.timer ts i other) h)
