-- ===== src/Async/Alone/Loops.antt =====
-- The loops of realtime/_async/client.py over the dict of channels, run alone: its size does not change,
-- so they run to their end.
use realtime_py.Prelude.{
  ℕ, suc, ◌+◌, ◌≡◌, refl, sym, ap, ◌∙◌, String, Option, some, none, List, [], ◌∷◌, ◌++◌, map,
  length, get_elem?, ==_iff, append_assoc, if_true, arith, length-append,
}
use realtime_py.Prelude.Dict.{Dict}
use realtime_py.World.{World, dict_changed, M, ⊤, Outcome, returns, raises, continue, gets}
use realtime_py.World
use realtime_py.World.Keeps.{Keeps}
use realtime_py.Socket.{values}
use realtime_py.Async.{Co, lift, run, run-bind, ◌>>=◌}
use realtime_py.Async.Calls.{entry, same_size, entries, for_channels}
use realtime_py.Async.Alone.{Alone}
use realtime_py.Stable.{Steady}

-- The dict of channels is the given one.
pub record Listed (d : Dict ℕ) (w : World) : Type 0 where
  pub same : w.channels ≡ d

instance pub Listed-Steady : {d : Dict ℕ} → Steady (Listed d)
Listed-Steady = record {
  rest = λ w v s h. record { same = s.channels ∙ h.same };
  counted = λ w h. record { same = h.same };
  entered = λ c p w h. record { same = h.same };
  settled = λ c ref w h. record { same = h.same };
}

get_elem?-append :
    (pre : List ℕ) (x : ℕ) (xs : List ℕ) → get_elem? (pre ++ x ∷ xs) (length pre) ≡ some x
get_elem?-append [] x xs = refl
get_elem?-append (y ∷ pre) x xs = get_elem?-append pre x xs

length-values : (d : Dict ℕ) → length (map (λ (e : String × ℕ). e.1) d) ≡ length d
length-values [] = refl
length-values (e ∷ d) = ap suc (length-values d)

module _ (d : Dict ℕ) where
  Alone-same_size : (v : World) → Listed d v → same_size (length d) v ≡ (returns tt, v)
  unfolding same_size
  Alone-same_size v h =
      if_true _ ((==_iff (length v.channels) (length d)).1 (ap (λ d. length d) h.same))

  entry_lem :
      (pre : List ℕ) (x : ℕ) (xs : List ℕ) (v : World)
      → map (λ (e : String × ℕ). e.1) d ≡ pre ++ x ∷ xs
      → Listed d v
      → entry (length d) (length pre) v ≡ (returns x, v)
  unfolding entry
  entry_lem pre x xs v split h =
      let found : get_elem? (values v) (length pre) ≡ some x =
        ap (λ c. get_elem? (map (λ (e : String × ℕ). e.1) c) (length pre)) h.same
        ∙ ap (λ c. get_elem? c (length pre)) split
        ∙ get_elem?-append pre x xs in
      if_true _ ((==_iff (length v.channels) (length d)).1 (ap (λ d. length d) h.same))
      ∙ ap
          (λ (o : Option ℕ). elim o as (λ _. Outcome ℕ × World) [
            | none ↦ (raises dict_changed, v)
            | some c ↦ (returns c, v)
          ])
          found

  module _ (body : ℕ → Co ⊤) (f : ℕ → M ⊤) (alone : (c : ℕ) → Alone (body c) (f c))
      (kept : (c : ℕ) → Keeps (Listed d) (f c)) where
    first_entry :
        (pre : List ℕ) (x : ℕ) (xs : List ℕ) (v : World)
        → map (λ (e : String × ℕ). e.1) d ≡ pre ++ x ∷ xs
        → Listed d v
        → run (lift (entry (length d) (length pre)) >>= body) v ≡ f x v
    unfolding run
    first_entry pre x xs v split h =
        run-bind body (lift (entry (length d) (length pre))) v
        ∙ ap (continue (λ c. run (body c))) (entry_lem pre x xs v split h)
        ∙ (alone x).runs v

    going_on :
        (rest : Co ⊤) (xs : List ℕ)
        → ((v : World) → Listed d v → run rest v ≡ World.for_each f xs v)
        → (o : Outcome ⊤ × World) → Listed d o.1
        → continue (λ _. run rest) o ≡ continue (λ _. World.for_each f xs) o
    going_on rest xs ih (returns _, v) h = ih v h
    going_on rest xs ih (raises e, v) h = refl

    entries_alone :
        (xs pre : List ℕ) (v : World)
        → map (λ (e : String × ℕ). e.1) d ≡ pre ++ xs
        → Listed d v
        → run (entries body (length d) (length xs) (length pre)) v ≡ World.for_each f xs v
    unfolding entries run
    entries_alone [] pre v split h = Alone-same_size v h
    entries_alone (x ∷ xs) pre v split h =
        let rest = entries body (length d) (length xs) (length pre + 1) in
        let next_index : length (pre ++ x ∷ []) ≡ length pre + 1 =
          length-append pre (x ∷ []) ∙ omega arith in
        run-bind (λ _. rest) (lift (entry (length d) (length pre)) >>= body) v
        ∙ ap (continue (λ _. run rest)) (first_entry pre x xs v split h)
        ∙ going_on rest xs
            (λ u h'.
              ap (λ i. run (entries body (length d) (length xs) i) u) (sym next_index)
              ∙ entries_alone xs (pre ++ x ∷ []) u (split ∙ sym (append_assoc pre (x ∷ []) xs)) h')
            (f x v) ((kept x).at v h)

pub Alone-for_channels :
    {body : ℕ → Co ⊤} {f : ℕ → M ⊤}
    → ((c : ℕ) → Alone (body c) (f c))
    → ((d : Dict ℕ) (c : ℕ) → Keeps (Listed d) (f c))
    → Alone (for_channels body) (λ w. World.for_each f (values w) w)
unfolding for_channels run
Alone-for_channels {body} {f} alone kept = record {
  runs = λ w.
      let d = w.channels in
      run-bind (λ n. entries body n n 0) (lift (gets (λ w. length w.channels))) w
      ∙ ap (λ n. run (entries body (length d) n 0) w) (sym (length-values d))
      ∙ entries_alone d body f alone (kept d) (values w) [] w refl (record { same = refl });
}
