-- ===== src/Timer/Single.antt =====
-- At most one task of a timer waits, and it is the one that the timer names. The table is shared
-- with the rest of the program, so the timer's own tasks are told by their job.
use realtime_py.Prelude.{
  ℕ, zero, suc, ◌≡◌, refl, Bool, true, false, ◌&&◌, Option, none, some, [], ◌∷◌, ◌++◌, arith,
  length, Bool-cases, inl, inr, ◌⊎◌, ap,
}
use realtime_py.Timer.{
  TaskState, Task, Tasks, cancelled_state, is_done, update_task, state_of, cancel, cancel_some,
  create_task, Timer, reset_task, reset, schedule_timeout, start_timer, end_timer,
}

abbrev pub is_pending : TaskState → Bool
is_pending TaskState.pending = true
is_pending _ = false

module _ {J : Type 0} (own : J → Bool) where
  -- Task `i` waits and is one of the timer's own.
  abbrev pub waits : ℕ → Tasks J → Bool
  waits i [] = false
  waits zero (t ∷ ts) = own t.job && is_pending t.state
  waits (suc i) (t ∷ ts) = waits i ts

  -- The timer's own tasks that wait are all the task that it names.
  abbrev pub IsSingle : Timer → Tasks J → Type 0
  IsSingle t ts = (i : ℕ) → waits i ts ≡ true → t.timer ≡ some i

  waits-update_task :
      (f : TaskState → TaskState) (i j : ℕ) (ts : Tasks J)
      → ((s : TaskState) → is_pending (f s) ≡ true → is_pending s ≡ true)
      → waits j (update_task f i ts) ≡ true
      → waits j ts ≡ true
  unfolding update_task
  waits-update_task f i j [] h q = q
  waits-update_task f zero zero (t ∷ ts) h q = ground (arith, h t.state)
  waits-update_task f zero (suc j) (t ∷ ts) h q = q
  waits-update_task f (suc i) zero (t ∷ ts) h q = q
  waits-update_task f (suc i) (suc j) (t ∷ ts) h q = waits-update_task f i j ts h q

  waits-cancel_self : (i : ℕ) (ts : Tasks J) → waits i (cancel i ts) ≡ false
  unfolding cancel update_task
  waits-cancel_self i [] = refl
  waits-cancel_self zero (t ∷ ts) = ground arith
  waits-cancel_self (suc i) (t ∷ ts) = waits-cancel_self i ts

  cancelled_not_pending :
      (s : TaskState) → is_pending (cancelled_state s) ≡ true → is_pending s ≡ true
  cancelled_not_pending TaskState.pending h = cc
  cancelled_not_pending _ h = cc

  -- Once the task that the timer names is cancelled, none of its own waits.
  no_waits :
      (o : Option ℕ) (ts : Tasks J)
      → ((i : ℕ) → waits i ts ≡ true → o ≡ some i)
      → (i : ℕ) → waits i (cancel_some o ts) ≡ true
      → ⊥
  unfolding cancel_some cancel
  no_waits none ts h i q = cc (h i q)
  no_waits (some j) ts h i q = ground (
    arith,
    h i (waits-update_task cancelled_state j i ts cancelled_not_pending q),
    waits-cancel_self j ts,
  )

  waits-append :
      (i : ℕ) (ts : Tasks J) (t : Task J)
      → waits i (ts ++ t ∷ []) ≡ true
      → (waits i ts ≡ true) ⊎ (i ≡ length ts)
  waits-append zero [] t q = inr refl
  waits-append (suc i) [] t q = cc
  waits-append zero (x ∷ ts) t q = inl q
  waits-append (suc i) (x ∷ ts) t q = elim (waits-append i ts t q) [
    | inl old ↦ inl old
    | inr new ↦ inr (ap suc new)
  ]

  waits-foreign :
      (ts : Tasks J) (t : Task J) → own t.job ≡ false → waits (length ts) (ts ++ t ∷ []) ≡ true → ⊥
  waits-foreign [] t h q = ground arith
  waits-foreign (x ∷ ts) t h q = waits-foreign ts t h q

  schedule_timeout-IsSingle :
      (calc : ℕ → ℕ) (job : J) (t : Timer) (ts : Tasks J)
      → IsSingle t ts
      → let (t', ts') = schedule_timeout calc job t ts in IsSingle t' ts'
  unfolding schedule_timeout create_task
  schedule_timeout-IsSingle calc job t ts h i q =
      elim (waits-append i (cancel_some t.timer ts) _ q) [
        | inl old ↦ absurd (no_waits t.timer ts h i old)
        | inr new ↦ rw new
      ]

  reset_task-waits :
      (o : Option ℕ) (ts : Tasks J)
      → ((i : ℕ) → waits i ts ≡ true → o ≡ some i)
      → (i : ℕ) → waits i (reset_task o ts).1 ≡ true
      → (reset_task o ts).0 ≡ some i
  unfolding reset_task
  reset_task-waits none ts h i q = h i q
  reset_task-waits (some j) ts h i q = elim (Bool-cases (is_done (state_of j ts))) [
    | inl done ↦ rw (done, reset_task) (h i (rw (done, reset_task) at q))
    | inr live ↦
        absurd (no_waits (some j) ts h i (unfold cancel_some in (rw (live, reset_task) at q)))
  ]

  reset-IsSingle :
      (t : Timer) (ts : Tasks J) → IsSingle t ts → let (t', ts') = reset t ts in IsSingle t' ts'
  unfolding reset
  reset-IsSingle t ts h i q = reset_task-waits t.timer ts h i q

  -- What happens to a timer: its two methods, its tasks that begin and end, the other tasks of the
  -- program that are created, and any task that is cancelled.
  pub data Step (calc : ℕ → ℕ) (job : J) : Timer × Tasks J → Timer × Tasks J → Type 0 where
    resets : (t : Timer) (ts : Tasks J) → Step calc job (t, ts) (reset t ts)
    schedules : (t : Timer) (ts : Tasks J) → Step calc job (t, ts) (schedule_timeout calc job t ts)
    starts : (t : Timer) (ts : Tasks J) (i : ℕ) → Step calc job (t, ts) (t, start_timer i ts)
    ends : (t : Timer) (ts : Tasks J) (i : ℕ) → Step calc job (t, ts) (t, end_timer i ts)
    cancels : (t : Timer) (ts : Tasks J) (i : ℕ) → Step calc job (t, ts) (t, cancel i ts)
    creates :
        (t : Timer) (ts : Tasks J) (other : J) (delay : ℕ)
        → own other ≡ false
        → Step calc job (t, ts) (t, (create_task other delay ts).0)

  pub data Run (calc : ℕ → ℕ) (job : J) (start : Timer × Tasks J) : Timer × Tasks J → Type 0 where
    here : Run calc job start start
    next : {s u : Timer × Tasks J} → Run calc job start s → Step calc job s u → Run calc job start u

  Step-IsSingle :
      {calc : ℕ → ℕ} {job : J} {s u : Timer × Tasks J}
      → Step calc job s u
      → IsSingle s.0 s.1
      → IsSingle u.0 u.1
  unfolding start_timer end_timer cancel create_task
  Step-IsSingle (resets t ts) h = reset-IsSingle t ts h
  Step-IsSingle (schedules t ts) h = schedule_timeout-IsSingle _ _ t ts h
  Step-IsSingle (starts t ts i) h = λ j q. h j (waits-update_task _ i j ts (λ s p. started s p) q)
    where
      started :
          (s : TaskState)
          → is_pending (elim s [ TaskState.pending ↦ TaskState.running | other ↦ other ]) ≡ true
          → is_pending s ≡ true
      started TaskState.pending p = cc
      started _ p = p
  Step-IsSingle (ends t ts i) h = λ j q. h j (waits-update_task _ i j ts (λ s p. ended s p) q)
    where
      ended :
          (s : TaskState)
          → is_pending (elim s [
            | TaskState.running ↦ TaskState.finished
            | TaskState.interrupted ↦ TaskState.finished
            | other ↦ other
          ])
            ≡ true
          → is_pending s ≡ true
      ended TaskState.running p = cc
      ended TaskState.interrupted p = cc
      ended _ p = p
  Step-IsSingle (cancels t ts i) h =
      λ j q. h j (waits-update_task cancelled_state i j ts cancelled_not_pending q)
  Step-IsSingle (creates t ts other delay foreign) h = λ j q. elim (waits-append j ts _ q) [
    | inl old ↦ h j old
    | inr new ↦ absurd (waits-foreign ts _ foreign (rw new at q))
  ]

  -- From a state in which each of the timer's own tasks that waits is the one that it names, any
  -- sequence of the steps above leads to such a state again: at most one of them waits.
  pub Run-IsSingle :
      {calc : ℕ → ℕ} {job : J} {s u : Timer × Tasks J}
      → IsSingle s.0 s.1
      → Run calc job s u
      → IsSingle u.0 u.1
  Run-IsSingle h here = h
  Run-IsSingle h (next r st) = Step-IsSingle st (Run-IsSingle h r)
