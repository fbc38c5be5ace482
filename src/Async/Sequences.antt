-- ===== src/Async/Sequences.antt =====
-- The calls of `Action` one after the other, as tasks of one event loop.
use realtime_py.Prelude.{ℕ, ◌≡◌, ◌∙◌, refl, ap}
use realtime_py.World.{World, ⊤, Outcome, returns, put_at, put_at_self}
use realtime_py.Async.{Co, block, Next, finished, suspended, run, run_next}
use realtime_py.Async.Methods.{task}
use realtime_py.Async.Interleaved.{Loop, Interleaving, begin, after, makes, runs, idle}
use realtime_py.Async.Alone.Tasks.{task_alone}
use realtime_py.Stable.Run.{Action, Reachable, here, next, act}

-- An interleaving to the given store, at whose end the first task is over.
record Idles (fuel : ℕ) (start w : World) : Type 0 where
  loop : Loop
  steps : Interleaving fuel start loop
  store : loop.store ≡ w
  result : Outcome ⊤
  over : loop.task_at 0 ≡ finished result

module _ {fuel : ℕ} {start : World} where
  mutual
    unfolding run

    finish :
        (c : Co ⊤) (l : Loop)
        → Interleaving fuel start l
        → l.task_at 0 ≡ suspended c
        → Idles fuel start (run c l.store).1
    finish (block f k) l r e =
        finish_next (k l.store) _ (after r (runs 0 e)) (put_at_self 0 (k l.store) l.task_at)

    finish_next :
        (n : Next ⊤) (l : Loop)
        → Interleaving fuel start l
        → l.task_at 0 ≡ n
        → Idles fuel start (run_next n l.store).1
    finish_next (finished x) l r e = record {
      loop = l;
      steps = r;
      store = refl;
      result = x;
      over = e;
    }
    finish_next (suspended c) l r e = finish c l r e

  one_more : (a : Action) {w : World} → Idles fuel start w → Idles fuel start (act fuel a w)
  one_more a g =
      let l = record g.loop { task_at = put_at 0 (suspended (task fuel a)) g.loop.task_at } in
      let h =
        finish (task fuel a) l (after g.steps (makes 0 a g.over))
          (put_at_self 0 (suspended (task fuel a)) g.loop.task_at) in
      record {
        loop = h.loop;
        steps = h.steps;
        store = h.store ∙ task_alone fuel a g.loop.store ∙ ap (act fuel a) g.store;
        result = h.result;
        over = h.over;
      }

  Reachable-Idles : {w : World} → Reachable fuel start w → Idles fuel start w
  Reachable-Idles here = record {
    loop = idle start;
    steps = begin;
    store = refl;
    result = returns tt;
    over = refl;
  }
  Reachable-Idles (next r a) = one_more a (Reachable-Idles r)

  -- Whatever store the calls of `Action` reach in some order, each run to its end before the next one
  -- starts, there is an interleaving of tasks that reaches it.
  pub calls_interleave :
      {w : World} → Reachable fuel start w → (l : Loop) × Interleaving fuel start l × (l.store ≡ w)
  calls_interleave r = let g = Reachable-Idles r in (g.loop, g.steps, g.store)
