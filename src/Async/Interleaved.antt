-- ===== src/Async/Interleaved.antt =====
-- The tasks of an event loop that runs the calls of `Action`: which task runs next, up to its next
-- await, is open.
use realtime_py.Prelude.{ℕ, ◌≡◌, ◌==◌, Bool-cases, inl, inr, if◌then◌else◌}
use realtime_py.World.{World, ⊤, Outcome, returns, put_at}
use realtime_py.Async.{Co, Next, finished, suspended, effect, next_of}
use realtime_py.Async.Safety.{Rest, Blocks, block_end}
use realtime_py.Async.Methods.{task}
use realtime_py.Async.Tasks.{task-Safe}
use realtime_py.Stable.{Stable}
use realtime_py.Stable.Run.{Action}

-- The store, and for each task what is left of it.
pub record Loop : Type 0 where
  pub store : World
  pub task_at : ℕ → Next ⊤

-- A task is made for a call, runs up to its next await, or is cancelled where it waits.
pub data Step (fuel : ℕ) : Loop → Loop → Type 0 where
  makes :
      {l : Loop} (i : ℕ) (a : Action) {r : Outcome ⊤}
      → l.task_at i ≡ finished r
      → Step fuel l (record l { task_at = put_at i (suspended (task fuel a)) l.task_at })
  runs :
      {l : Loop} (i : ℕ) {c : Co ⊤}
      → l.task_at i ≡ suspended c
      → Step fuel l
          (record { store = effect c l.store; task_at = put_at i (next_of c l.store) l.task_at })
  cancels :
      {l : Loop} (i : ℕ) {c : Co ⊤}
      → l.task_at i ≡ suspended c
      → Step fuel l (record l { task_at = put_at i (finished (returns tt)) l.task_at })

-- A loop on the store, without a task.
abbrev pub idle : World → Loop
idle w = record { store = w; task_at = λ _. finished (returns tt) }

pub data Interleaving (fuel : ℕ) (start : World) : Loop → Type 0 where
  begin : Interleaving fuel start (idle start)
  after : {l l' : Loop} → Interleaving fuel start l → Step fuel l l' → Interleaving fuel start l'

module _ (P : World → Type 0) ⦃s : Stable P⦄ where
  -- The property holds in the store, and no task breaks it.
  record Good (l : Loop) : Type 0 where
    holds : P l.store
    tasks : (i : ℕ) → Rest P (l.task_at i)

  put_at-Rest :
      (i : ℕ) (n : Next ⊤) (f : ℕ → Next ⊤)
      → Rest P n
      → ((j : ℕ) → Rest P (f j))
      → (j : ℕ) → Rest P (put_at i n f j)
  unfolding put_at
  put_at-Rest i n f new old j = elim (Bool-cases (i == j)) [
    | inl same ↦ rw (same, if◌then◌else◌) new
    | inr other ↦ rw (other, if◌then◌else◌) (old j)
  ]

  Step-Good : {fuel : ℕ} {l l' : Loop} → Step fuel l l' → Good l → Good l'
  unfolding Blocks
  Step-Good {fuel} (makes {l} i a ended) g = record {
    holds = g.holds;
    tasks = put_at-Rest i (suspended (task fuel a)) l.task_at (task-Safe fuel a).blocks g.tasks;
  }
  Step-Good (runs {l} i {c} waits) g =
      let (h, n) = block_end P c (rw waits at (g.tasks i)) l.store g.holds in
      record { holds = h; tasks = put_at-Rest i (next_of c l.store) l.task_at n g.tasks }
  Step-Good (cancels {l} i waits) g = record {
    holds = g.holds;
    tasks = put_at-Rest i (finished (returns tt)) l.task_at tt g.tasks;
  }

  Interleaving-Good :
      {fuel : ℕ} {start : World} {l : Loop} → P start → Interleaving fuel start l → Good l
  unfolding Blocks
  Interleaving-Good h begin = record { holds = h; tasks = λ _. tt }
  Interleaving-Good h (after r step) = Step-Good step (Interleaving-Good h r)

  -- What is stable and holds at the start holds after any interleaving.
  pub Interleaving-keeps :
      {fuel : ℕ} {start : World} {l : Loop} → P start → Interleaving fuel start l → P l.store
  Interleaving-keeps h r = (Interleaving-Good h r).holds
