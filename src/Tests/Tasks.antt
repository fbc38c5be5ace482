-- ===== src/Tests/Tasks.antt =====
-- Runs of the timer.
use realtime_py.Prelude.{ℕ, ◌+◌, ◌≡◌, Bool, true, none, some, [], get_elem?}
use realtime_py.Timer.{TaskState, Tasks, Timer, schedule_timeout, reset}
use realtime_py.Timer.Single.{IsSingle, schedules, Run, here, next, Run-IsSingle}
use realtime_py.Timer.Delays.{schedule_times, delay-schedule_times}

-- All tasks are the timer's own.
abbrev own : ℕ → Bool
own job = true

abbrev idle : Timer
idle = record { timer = none; tries = 0 }

abbrev twice : ℕ → ℕ
twice n = n + n

abbrev one : Timer × Tasks ℕ
one = schedule_timeout twice 8 idle []

abbrev two : Timer × Tasks ℕ
two = schedule_timeout twice 8 one.0 one.1

none_wait : IsSingle own idle []
none_wait i q = cc q

two_schedules : Run own twice 8 (idle, []) two
two_schedules = next (next here (schedules idle [])) (schedules one.0 one.1)

Run-IsSingle_example : IsSingle own two.0 two.1
Run-IsSingle_example = Run-IsSingle own none_wait two_schedules

delay-schedule_times_example :
    let (t', ts') = schedule_times {J = ℕ} twice 8 3 (reset idle []) in
    (i : ℕ) × (t'.timer ≡ some i)
    × (t'.tries ≡ 3)
    × (get_elem? ts' i ≡ some (record { job = 8; delay = twice 4; state = TaskState.pending }))
delay-schedule_times_example = delay-schedule_times {J = ℕ} twice 8 2 idle []
