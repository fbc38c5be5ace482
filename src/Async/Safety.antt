-- ===== src/Async/Safety.antt =====
-- What every block of a coroutine of realtime/_async keeps, whatever other tasks run between them.
use realtime_py.Prelude.{Bool, true, false, List, [], ◌∷◌, if◌then◌else◌}
use realtime_py.World.{World, M, ⊤, returns, raises}
use realtime_py.World.Keeps.{Keeps}
use realtime_py.Async.{
  Co, block, Next, finished, suspended, effect, next_of, lift, bind, await, skip, when, for_each,
  try, later_effect, later_next, try_next,
}

-- If the property holds where a block starts, it holds where the block ends.
unfoldable mutual
  pub Blocks : (P : World → Type 0) {A : Type 0} → Co A → Type 0
  Blocks P (block f k) = (w : World) → P w → P (f w) × Rest P (k w)

  pub Rest : (P : World → Type 0) {A : Type 0} → Next A → Type 0
  Rest P (finished r) = Unit
  Rest P (suspended c) = Blocks P c

pub record Safe {A : Type 0} (P : World → Type 0) (c : Co A) : Type 0 where
  pub blocks : Blocks P c

pub block_end :
    {A : Type 0} (P : World → Type 0) (c : Co A)
    → Blocks P c
    → (w : World) → P w
    → P (effect c w) × Rest P (next_of c w)
unfolding Blocks
block_end P (block f k) s = s

module _ {A B : Type 0} (P : World → Type 0) (g : A → Co B) (s : (a : A) → Safe P (g a)) where
  mutual
    unfolding Blocks bind

    bind-Blocks : (c : Co A) → Blocks P c → Blocks P (bind g c)
    bind-Blocks (block f k) b = λ w h. let (h', n) = b w h in later-Blocks (k w) (f w) h' n

    later-Blocks :
        (n : Next A) (w : World)
        → P w
        → Rest P n
        → P (later_effect g n w) × Rest P (later_next g n w)
    later-Blocks (finished (returns a)) w h b = block_end P (g a) (s a).blocks w h
    later-Blocks (finished (raises e)) w h b = (h, tt)
    later-Blocks (suspended c) w h b = (h, bind-Blocks c b)

mutual
  unfolding Blocks try

  try-Blocks : {A : Type 0} (P : World → Type 0) (c : Co A) → Blocks P c → Blocks P (try c)
  try-Blocks P (block f k) b = λ w h. let (h', n) = b w h in (h', try_next-Rest P (k w) n)

  try_next-Rest : {A : Type 0} (P : World → Type 0) (n : Next A) → Rest P n → Rest P (try_next n)
  try_next-Rest P (finished r) b = tt
  try_next-Rest P (suspended c) b = try-Blocks P c b

module _ {P : World → Type 0} where
  pub Safe-lift : {A : Type 0} {m : M A} → Keeps P m → Safe P (lift m)
  unfolding Blocks
  Safe-lift k = record { blocks = λ w h. (k.at w h, tt) }

  pub Safe-bind :
      {A B : Type 0} {c : Co A} {g : A → Co B}
      → Safe P c
      → ((a : A) → Safe P (g a))
      → Safe P (bind g c)
  Safe-bind {c} {g} b s = record { blocks = bind-Blocks P g s c b.blocks }

  pub Safe-try : {A : Type 0} {c : Co A} → Safe P c → Safe P (try c)
  Safe-try {c} b = record { blocks = try-Blocks P c b.blocks }

  pub Safe-skip : Safe P skip
  unfolding Blocks
  Safe-skip = record { blocks = λ w h. (h, tt) }

  pub Safe-await : Safe P await
  unfolding Blocks
  Safe-await = record { blocks = λ w h. (h, λ v h'. (h', tt)) }

  pub Safe-when : (b : Bool) {c : Co ⊤} → Safe P c → Safe P (when b c)
  Safe-when true s = s
  Safe-when false s = Safe-skip

  pub Safe-if :
      {A : Type 0} (b : Bool) {c d : Co A}
      → Safe P c
      → Safe P d
      → Safe P (if◌then◌else◌ {A = Co A} b c d)
  Safe-if true s t = s
  Safe-if false s t = t

  pub Safe-for_each :
      {A : Type 0} {f : A → Co ⊤} (xs : List A) → ((x : A) → Safe P (f x)) → Safe P (for_each f xs)
  Safe-for_each [] s = Safe-skip
  Safe-for_each (x ∷ xs) s = Safe-bind (s x) (λ _. Safe-for_each xs s)

pub ruleset safe_rules =
    (Safe-bind, Safe-lift, Safe-skip, Safe-await, Safe-when, Safe-if, Safe-for_each, Safe-try)
