-- ===== src/Timer/Delays.antt =====
-- The delays of consecutive schedules of a timer (realtime/_async/timer.py).
use realtime_py.Prelude.{
  ℕ, zero, suc, ◌+◌, ◌≡◌, refl, some, [], ◌∷◌, ◌++◌, arith, length, get_elem?, ap, ◌∙◌,
}
use realtime_py.Timer.{
  TaskState, Task, Tasks, cancel_some, create_task, Timer, reset, schedule_timeout,
}

module _ {J : Type 0} where
  get_elem?-append : (ts : Tasks J) (t : Task J) → get_elem? (ts ++ t ∷ []) (length ts) ≡ some t
  get_elem?-append [] t = refl
  get_elem?-append (x ∷ ts) t = get_elem?-append ts t

  -- So many calls of `schedule_timeout`, one after the other.
  pub schedule_times : (ℕ → ℕ) → J → ℕ → Timer × Tasks J → Timer × Tasks J
  schedule_times calc job zero s = s
  schedule_times calc job (suc n) s =
      let (t, ts) = schedule_times calc job n s in schedule_timeout calc job t ts

  tries-schedule_times :
      (calc : ℕ → ℕ) (job : J) (n : ℕ) (s : Timer × Tasks J)
      → (schedule_times calc job n s).0.tries ≡ s.0.tries + n
  unfolding schedule_times schedule_timeout
  tries-schedule_times calc job zero s = omega arith
  tries-schedule_times calc job (suc n) s = omega (arith, tries-schedule_times calc job n s)

  -- After a reset, the task of the n-th schedule in a row runs the callback after
  -- `timer_calc(n + 1)`, and is the one that the timer names.
  pub delay-schedule_times :
      (calc : ℕ → ℕ) (job : J) (n : ℕ) (t : Timer) (ts : Tasks J)
      → let (t', ts') = schedule_times calc job (suc n) (reset t ts) in
        (i : ℕ) × (t'.timer ≡ some i)
        × (t'.tries ≡ suc n)
        × (get_elem? ts' i
            ≡ some (record { job = job; delay = calc (suc n + 1); state = TaskState.pending }))
  unfolding schedule_times schedule_timeout create_task
  delay-schedule_times calc job n t ts =
      let before = schedule_times calc job n (reset t ts) in
      let tries : before.0.tries ≡ n =
        tries-schedule_times calc job n (reset t ts) ∙ (unfold reset in omega arith) in
      let table = cancel_some before.0.timer before.1 in
      (
        length table,
        refl,
        omega arith,
        get_elem?-append table _
            ∙ ap (λ k. some (record { job = job; delay = calc k; state = TaskState.pending }))
                (omega arith),
      )
