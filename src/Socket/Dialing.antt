-- ===== src/Socket/Dialing.antt =====
-- The retries of `connect` in realtime/_async/client.py: how long it waits, and when it gives up.
use realtime_py.Prelude.{
  append_assoc, append_nil, if_true, if_false, ℕ, zero, suc, ◌+◌, ◌*◌, ◌^◌, ◌≤◌, ◌<◌, ◌≡◌, refl,
  Bool, true, false, not, ◌||◌, some, List, [], ◌∷◌, ◌++◌, get_elem?, arith, ap, ◌∙◌, sym, leb, min,
  if◌then◌else◌, inl, inr, ◌⊎◌,
}
use native.Mathlib.Omega.{pow_step}
use native.Mathlib.Nat.{one-le-pow, mul_assoc, mul-le-mul_left}
use realtime_py.World.{World, dial_failed, out_of_fuel, M, ⊤, Outcome, returns, raises}
use realtime_py.Socket.{
  gives_up, max_backoff, wait_time, next_backoff, attempt, connect_loop, connect, on_connect,
}

-- So many dials fail, one after the other, before the rest.
abbrev pub failures : ℕ → List Bool → List Bool
failures zero rest = rest
failures (suc n) rest = false ∷ failures n rest

abbrev pub backoff_after : ℕ → ℕ → ℕ
backoff_after zero backoff = backoff
backoff_after (suc n) backoff = backoff_after n (next_backoff backoff)

-- The waits between so many dials: the backoff and the number of retries before them are given.
abbrev pub waits : ℕ → ℕ → ℕ → List ℕ
waits zero retries backoff = []
waits (suc n) retries backoff =
    wait_time backoff retries ∷ waits n (retries + 1) (next_backoff backoff)

module _ (closed : M ⊤) where
  attempt_fails :
      (w : World) (rest : List Bool)
      → w.dial_outcomes ≡ false ∷ rest
      → attempt closed w ≡ (raises dial_failed, record w { dial_outcomes = rest })
  unfolding attempt
  attempt_fails w rest h = simp h

  -- What the loop does with the outcome of an attempt.
  round : ℕ → ℕ → ℕ → Outcome ⊤ × World → Outcome ⊤ × World
  round left retries backoff (returns _, w') = (returns tt, w')
  round left retries backoff (raises e, w') =
      if gives_up retries e w'
      then (raises e, w')
      else connect_loop closed left (retries + 1) (next_backoff backoff)
          (record w' { slept = w'.slept ++ wait_time backoff retries ∷ [] })

  connect_loop-round :
      (left retries backoff : ℕ) (w : World)
      → connect_loop closed (suc left) retries backoff w
        ≡ round left retries backoff (attempt closed w)
  unfolding connect_loop round
  connect_loop-round left retries backoff w = by_outcome (attempt closed w)
    where
      by_outcome :
          (o : Outcome ⊤ × World)
          → (let (r, w') = o in
              elim r [
                | returns _ ↦ (returns tt, w')
                | raises e ↦
                    if gives_up retries e w'
                    then (raises e, w')
                    else connect_loop closed left
                        (retries + 1)
                        (next_backoff backoff)
                        (record w' { slept = w'.slept ++ wait_time backoff retries ∷ [] })
              ])
            ≡ round left retries backoff o
      by_outcome (returns _, w') = refl
      by_outcome (raises e, w') = refl

  goes_on :
      (retries : ℕ) (w : World)
      → w.auto_reconnect ≡ true
      → retries + 1 < w.max_retries
      → gives_up retries dial_failed w ≡ false
  goes_on retries w auto below = ground arith

  stops :
      (retries : ℕ) (w : World)
      → (w.max_retries ≤ retries + 1) ⊎ (w.auto_reconnect ≡ false)
      → gives_up retries dial_failed w ≡ true
  stops retries w (inl done) = ground arith
  stops retries w (inr manual) = ground arith

  -- After so many failed dials, with more rounds left, the loop stands where it stood but for the
  -- waits.
  connect_loop-failures :
      (n rounds left retries backoff : ℕ) (w : World) (rest : List Bool)
      → rounds ≡ n + left
      → w.auto_reconnect ≡ true
      → retries + n < w.max_retries
      → w.dial_outcomes ≡ failures n rest
      → connect_loop closed rounds retries backoff w
        ≡ connect_loop closed left
            (retries + n)
            (backoff_after n backoff)
            (record w { dial_outcomes = rest; slept = w.slept ++ waits n retries backoff })
  unfolding round
  connect_loop-failures zero rounds left retries backoff w rest e auto below h =
      let p = sym (append_nil w.slept) in
      let q : retries ≡ retries + 0 = omega arith in
      let r : rounds ≡ left = omega arith in
      λ i. connect_loop closed (r i) (q i) backoff (record w { dial_outcomes = h i; slept = p i })
  connect_loop-failures (suc n) rounds left retries backoff w rest e auto below h =
      let r : rounds ≡ suc (n + left) = omega arith in
      ap (λ k. connect_loop closed k retries backoff w) r
      ∙ connect_loop-round (n + left) retries backoff w
      ∙ ap (round (n + left) retries backoff) (attempt_fails w (failures n rest) h)
      ∙ if_false _ (goes_on retries w auto (omega arith))
      ∙ connect_loop-failures n (n + left) left (retries + 1) (next_backoff backoff)
          (record w {
            dial_outcomes = failures n rest;
            slept = w.slept ++ wait_time backoff retries ∷ [];
          })
          rest refl auto (omega arith) refl
      ∙ (let p =
            append_assoc w.slept (wait_time backoff retries ∷ [])
              (waits n (retries + 1) (next_backoff backoff)) in
          let q : retries + 1 + n ≡ retries + suc n = omega arith in
          λ i.
            connect_loop closed left (q i) (backoff_after (suc n) backoff)
              (record w { dial_outcomes = rest; slept = p i }))

  -- If the connection is closed, `auto_reconnect` is set and each of the `max_retries` dials fails,
  -- `connect` raises the error of the last dial, after one wait between each two dials.
  pub connect_gives_up :
      (n : ℕ) (w : World) (rest : List Bool)
      → w.is_connected ≡ false
      → w.auto_reconnect ≡ true
      → w.max_retries ≡ suc n
      → w.dial_outcomes ≡ failures n (false ∷ rest)
      → connect closed w ≡ (
        raises dial_failed,
        record w { dial_outcomes = rest; slept = w.slept ++ waits n 0 w.initial_backoff },
      )
  unfolding connect round
  connect_gives_up n w rest down auto retries h =
      let last = backoff_after n w.initial_backoff in
      let before = record w {
        dial_outcomes = false ∷ rest;
        slept = w.slept ++ waits n 0 w.initial_backoff;
      } in
      if_false _ down
      ∙ connect_loop-failures n w.max_retries 1 0 w.initial_backoff w (false ∷ rest) (omega arith)
          auto (omega arith) h
      ∙ connect_loop-round 0 (0 + n) last before
      ∙ ap (round 0 (0 + n) last) (attempt_fails before rest refl)
      ∙ if_true _ (stops (0 + n) w (inl (omega arith)))

  -- Running out of fuel is no exception of the program: `connect` does not catch it.
  pub connect_loop-out_of_fuel :
      (left retries backoff : ℕ) (w v : World)
      → attempt closed w ≡ (raises out_of_fuel, v)
      → connect_loop closed (suc left) retries backoff w ≡ (raises out_of_fuel, v)
  unfolding round
  connect_loop-out_of_fuel left retries backoff w v h =
      connect_loop-round left retries backoff w
      ∙ ap (round left retries backoff) h
      ∙ if_true _ (stopped (leb v.max_retries (retries + 1)) (not v.auto_reconnect))
    where
      stopped : (a b : Bool) → (a || b || true) ≡ true
      stopped a b = ground arith

  -- If the connection is closed, `auto_reconnect` is set, fewer dials than `max_retries` fail, the
  -- next one succeeds and `_on_connect` returns, then `connect` returns, with what `_on_connect`
  -- makes of the open connection, after one wait for each failure.
  pub connect_recovers :
      (n left : ℕ) (w w' : World) (rest : List Bool)
      → w.is_connected ≡ false
      → w.auto_reconnect ≡ true
      → w.max_retries ≡ n + suc left
      → w.dial_outcomes ≡ failures n (true ∷ rest)
      → on_connect closed (record w {
        is_connected = true;
        dial_outcomes = rest;
        slept = w.slept ++ waits n 0 w.initial_backoff;
      })
        ≡ (returns tt, w')
      → connect closed w ≡ (returns tt, w')
  unfolding connect round attempt
  connect_recovers n left w w' rest down auto retries h greets =
      let last = backoff_after n w.initial_backoff in
      if_false _ down
      ∙ connect_loop-failures n w.max_retries (suc left) 0 w.initial_backoff w (true ∷ rest) retries
          auto (omega arith) h
      ∙ connect_loop-round left (0 + n) last _
      ∙ ap (round left (0 + n) last) greets

  -- Without `auto_reconnect` a closed connection is dialled once, and the error of a failed dial is
  -- raised at once, without a wait.
  pub connect_once :
      (w : World) (rest : List Bool) (n : ℕ)
      → w.is_connected ≡ false
      → w.auto_reconnect ≡ false
      → w.max_retries ≡ suc n
      → w.dial_outcomes ≡ false ∷ rest
      → connect closed w ≡ (raises dial_failed, record w { dial_outcomes = rest })
  unfolding connect round
  connect_once w rest n down manual retries h =
      if_false _ down
      ∙ ap (λ k. connect_loop closed k 0 w.initial_backoff w) retries
      ∙ connect_loop-round n 0 w.initial_backoff w
      ∙ ap (round n 0 w.initial_backoff) (attempt_fails w rest h)
      ∙ if_true _ (stops 0 w (inr manual))

doubled_below : (b p : ℕ) → 1 ≤ p → b * (2 * p) ≤ max_backoff → b * 2 ≤ max_backoff
doubled_below b p h below =
    let bigger : b * 2 ≤ b * (2 * p) = mul-le-mul_left b (omega (arith, mul-le-mul_left 2 h)) in
    omega arith

backoff_after_lem :
    (k backoff : ℕ) → backoff * 2 ^ k ≤ max_backoff → backoff_after k backoff ≡ backoff * 2 ^ k
unfolding next_backoff
backoff_after_lem zero backoff h = omega arith
backoff_after_lem (suc k) backoff h =
    let two : 2 ^ suc k ≡ 2 * 2 ^ k = pow_step 2 k in
    let below : backoff * (2 * 2 ^ k) ≤ max_backoff = rw two at h in
    let same : min (backoff * 2) max_backoff ≡ backoff * 2 =
      omega (arith, doubled_below backoff (2 ^ k) (one-le-pow k 2 (omega arith)) below) in
    let assoc : backoff * 2 * 2 ^ k ≡ backoff * (2 * 2 ^ k) = mul_assoc backoff 2 (2 ^ k) in
    rw (same, two) (backoff_after_lem k (backoff * 2) (rw assoc below) ∙ assoc)

wait_at :
    (n k retries backoff : ℕ)
    → k < n
    → get_elem? (waits n retries backoff) k
      ≡ some (wait_time (backoff_after k backoff) (retries + k))
wait_at zero k retries backoff h = elim h [ ]
wait_at (suc n) zero retries backoff h = ap (λ r. some (wait_time backoff r)) (omega arith)
wait_at (suc n) (suc k) retries backoff h =
    wait_at n k (retries + 1) (next_backoff backoff) (omega arith)
    ∙ ap (λ r. some (wait_time (backoff_after (suc k) backoff) r)) (omega arith)

waits_lem :
    (n k backoff : ℕ)
    → k < n
    → backoff * 2 ^ k ≤ max_backoff
    → get_elem? (waits n 0 backoff) k ≡ some (backoff * 2 ^ k * 2 ^ k)
unfolding wait_time
waits_lem n k backoff h below =
    wait_at n k 0 backoff h
    ∙ ap some (
        ap (λ b. b * 2 ^ (0 + k)) (backoff_after_lem k backoff below)
        ∙ ap (λ j. backoff * 2 ^ k * 2 ^ j) zero_left)
  where
    zero_left : 0 + k ≡ k
    zero_left = omega arith

-- If the connection is closed, `auto_reconnect` is set and each of the `max_retries` dials fails, the
-- wait of `connect` after the failure with index k, the last one excepted, is the initial backoff
-- times 4 to the power of k, as long as the initial backoff times 2 to the power of k is at most 60
-- seconds: the wait itself is not bounded by 60 seconds.
pub connect_waits :
    (closed : M ⊤) (n k : ℕ) (w : World) (rest : List Bool)
    → w.is_connected ≡ false
    → w.auto_reconnect ≡ true
    → w.max_retries ≡ suc n
    → w.dial_outcomes ≡ failures n (false ∷ rest)
    → w.slept ≡ []
    → k < n
    → w.initial_backoff * 2 ^ k ≤ max_backoff
    → get_elem? (connect closed w).1.slept k ≡ some (w.initial_backoff * 2 ^ k * 2 ^ k)
connect_waits closed n k w rest down auto retries dials rested h below =
    ap (λ (x : Outcome ⊤ × World). get_elem? x.1.slept k)
      (connect_gives_up closed n w rest down auto retries dials)
    ∙ ap (λ s. get_elem? (s ++ waits n 0 w.initial_backoff) k) rested
    ∙ waits_lem n k w.initial_backoff h below
