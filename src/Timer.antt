-- ===== src/Timer.antt =====
-- realtime/_async/timer.py over a table of tasks of the event loop. `J` is what a task runs.
pub mod Single
pub mod Delays
pub mod Others
use realtime_py.Prelude.{
  ℕ, zero, suc, ◌+◌, Bool, true, false, Option, none, some, List, [], ◌∷◌, ◌++◌, length, get_elem?,
  if◌then◌else◌,
}

-- A task that waits, that runs now, that was cancelled while it ran (the cancellation reaches it at
-- its next wait), that was cancelled, or that has returned.
pub data TaskState : Type 0 where
  pending running interrupted cancelled finished : TaskState

pub record Task (J : Type 0) : Type 0 where
  pub job : J
  pub delay : ℕ
  pub state : TaskState

abbrev pub Tasks : Type 0 → Type 0
Tasks J = List (Task J)

-- `task.cancel()`
abbrev pub cancelled_state : TaskState → TaskState
cancelled_state TaskState.pending = TaskState.cancelled
cancelled_state TaskState.running = TaskState.interrupted
cancelled_state s = s

-- `task.done()`
abbrev pub is_done : TaskState → Bool
is_done TaskState.cancelled = true
is_done TaskState.finished = true
is_done _ = false

module _ {J : Type 0} where
  -- A change of the state of one task; an unknown number changes nothing.
  unfoldable pub update_task : (TaskState → TaskState) → ℕ → Tasks J → Tasks J
  update_task f i [] = []
  update_task f zero (t ∷ ts) = record t { state = f t.state } ∷ ts
  update_task f (suc i) (t ∷ ts) = t ∷ update_task f i ts

  unfoldable pub state_of : ℕ → Tasks J → TaskState
  state_of i [] = TaskState.finished
  state_of zero (t ∷ ts) = t.state
  state_of (suc i) (t ∷ ts) = state_of i ts

  unfoldable pub cancel : ℕ → Tasks J → Tasks J
  cancel i ts = update_task cancelled_state i ts

  -- `if task: task.cancel()`
  unfoldable pub cancel_some : Option ℕ → Tasks J → Tasks J
  cancel_some none ts = ts
  cancel_some (some i) ts = cancel i ts

  -- `asyncio.create_task`: the table, and the number of the task
  unfoldable pub create_task : J → ℕ → Tasks J → Tasks J × ℕ
  create_task job delay ts =
      (ts ++ record { job = job; delay = delay; state = TaskState.pending } ∷ [], length ts)

-- `AsyncTimer`, whose callback and `timer_calc` are given where it is used
pub record Timer : Type 0 where
  pub timer : Option ℕ
  pub tries : ℕ

unfoldable pub new_timer : Timer
new_timer = record { timer = none; tries = 0 }

module _ {J : Type 0} where
  -- `if self.timer and not self.timer.done()` of `reset`
  unfoldable pub reset_task : Option ℕ → Tasks J → Option ℕ × Tasks J
  reset_task none ts = (none, ts)
  reset_task (some i) ts = if is_done (state_of i ts) then (some i, ts) else (none, cancel i ts)

  unfoldable pub reset : Timer → Tasks J → Timer × Tasks J
  unfolding reset_task
  reset t ts =
      let (timer, ts') = reset_task t.timer ts in (record { timer = timer; tries = 0 }, ts')

  unfoldable pub schedule_timeout : (ℕ → ℕ) → J → Timer → Tasks J → Timer × Tasks J
  unfolding cancel_some
  schedule_timeout timer_calc callback t ts =
      let tries = t.tries + 1 in
      let delay = timer_calc (tries + 1) in
      let (ts', i) = create_task callback delay (cancel_some t.timer ts) in
      (record { timer = some i; tries = tries }, ts')

  -- `_run_timer` past its sleep: the task runs its callback, and whether the callback returns, raises
  -- or is cancelled, the task ends.
  unfoldable pub start_timer : ℕ → Tasks J → Tasks J
  start_timer i ts =
      update_task (λ s. elim s [ TaskState.pending ↦ TaskState.running | other ↦ other ]) i ts

  unfoldable pub end_timer : ℕ → Tasks J → Tasks J
  end_timer i ts =
      update_task
        (λ s. elim s [
          | TaskState.running ↦ TaskState.finished
          | TaskState.interrupted ↦ TaskState.finished
          | other ↦ other
        ])
        i ts
