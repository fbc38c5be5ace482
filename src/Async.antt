-- ===== src/Async.antt =====
-- A coroutine of realtime/_async: blocks that run without a switch to another task, between its
-- awaits on the socket, a dial or a sleep.
pub mod Calls
pub mod Methods
pub mod Safety
pub mod Kept
pub mod Tasks
pub mod Alone
pub mod Interleaved
pub mod Sequences
pub mod Invariants
use realtime_py.Prelude.{◌≡◌, refl, sym, Bool, true, false, List, [], ◌∷◌}
use realtime_py.World.{World, M, ⊤, Outcome, returns, raises, continue}

mutual
  -- What a block does to the store, and what comes next, both by the store at its start.
  pub data Co (A : Type 0) : Type 0 where
    block : (World → World) → (World → Next A) → Co A

  pub data Next (A : Type 0) : Type 0 where
    finished : Outcome A → Next A
    suspended : Co A → Next A

abbrev pub effect : {A : Type 0} → Co A → World → World
effect (block f k) = f

abbrev pub next_of : {A : Type 0} → Co A → World → Next A
next_of (block f k) = k

-- A call that does not await.
abbrev pub lift : {A : Type 0} → M A → Co A
lift m = block (λ w. (m w).1) (λ w. finished (m w).0)

module _ {A B : Type 0} (g : A → Co B) where
  abbrev later_effect : Next A → World → World
  later_effect (finished (returns a)) w = effect (g a) w
  later_effect (finished (raises e)) w = w
  later_effect (suspended c) w = w

  unfoldable mutual
    pub bind : Co A → Co B
    bind (block f k) = block (λ w. later_effect (k w) (f w)) (λ w. later_next (k w) (f w))

    later_next : Next A → World → Next B
    later_next (finished (returns a)) w = next_of (g a) w
    later_next (finished (raises e)) w = finished (raises e)
    later_next (suspended c) w = suspended (bind c)

infixl 5 ◌>>=◌ ◌>>◌
abbrev pub ◌>>=◌ : {A B : Type 0} → Co A → (A → Co B) → Co B
c >>= g = bind g c

abbrev pub ◌>>◌ : {A B : Type 0} → Co A → Co B → Co B
c >> d = c >>= λ _. d

-- `await` of the event loop: other tasks may run before the rest
abbrev pub await : Co ⊤
await = block (λ w. w) (λ _. suspended (lift (λ w. (returns tt, w))))

abbrev pub skip : Co ⊤
skip = lift (λ w. (returns tt, w))

abbrev pub when : Bool → Co ⊤ → Co ⊤
when true c = c
when false c = skip

abbrev pub for_each : {A : Type 0} → (A → Co ⊤) → List A → Co ⊤
for_each f [] = skip
for_each f (x ∷ xs) = let rest = for_each f xs in f x >> rest

-- `try`, with what it catches as a value
unfoldable mutual
  pub try : {A : Type 0} → Co A → Co (Outcome A)
  try (block f k) = block f (λ w. try_next (k w))

  try_next : {A : Type 0} → Next A → Next (Outcome A)
  try_next (finished r) = finished (returns r)
  try_next (suspended c) = suspended (try c)

-- The coroutine with no other task between its blocks.
unfoldable mutual
  pub run : {A : Type 0} → Co A → M A
  run (block f k) w = run_next (k w) (f w)

  pub run_next : {A : Type 0} → Next A → M A
  run_next (finished r) w = (r, w)
  run_next (suspended c) w = run c w

run_block : {A : Type 0} (c : Co A) (w : World) → run c w ≡ run_next (next_of c w) (effect c w)
unfolding run
run_block (block f k) w = refl

module _ {A B : Type 0} (g : A → Co B) where
  mutual
    unfolding bind run

    pub run-bind : (c : Co A) (w : World) → run (c >>= g) w ≡ continue (λ a. run (g a)) (run c w)
    run-bind (block f k) w = run_later (k w) (f w)

    run_later :
        (n : Next A) (w : World)
        → run_next (later_next g n w) (later_effect g n w)
          ≡ continue (λ a. run (g a)) (run_next n w)
    run_later (finished (returns a)) w = sym (run_block (g a) w)
    run_later (finished (raises e)) w = refl
    run_later (suspended c) w = run-bind c w

abbrev caught : {A : Type 0} → Outcome A × World → Outcome (Outcome A) × World
caught (r, w) = (returns r, w)

mutual
  unfolding try run

  pub run-try : {A : Type 0} (c : Co A) (w : World) → run (try c) w ≡ caught (run c w)
  run-try (block f k) w = run_try_next (k w) (f w)

  run_try_next :
      {A : Type 0} (n : Next A) (w : World) → run_next (try_next n) w ≡ caught (run_next n w)
  run_try_next (finished r) w = refl
  run_try_next (suspended c) w = run-try c w
