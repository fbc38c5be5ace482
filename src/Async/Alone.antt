-- ===== src/Async/Alone.antt =====
-- A coroutine of realtime/_async that no other task interrupts does what the method does in one call.
pub mod Sending
pub mod Loops
pub mod Reconnecting
pub mod Tasks
pub mod Methods
use realtime_py.Prelude.{
  ℕ, zero, suc, ◌+◌, ◌≡◌, ◌∙◌, refl, ap, String, Bool, true, false, not, ◌&&◌, ◌||◌, Option, none,
  some, List, [], ◌∷◌, ◌++◌, leb, is_empty, if◌then◌else◌,
}
use realtime_py.Types.{ChannelStates, Message, Payload}
use realtime_py.World.{
  World, SendOutcome, Error, not_connected, dial_failed, M, ⊤, Outcome, returns, raises, raise,
  pure, gets, continue,
}
use realtime_py.World
use realtime_py.Channel.{in_state, set_state}
use realtime_py.Socket
use realtime_py.Socket.{
  next_outcome, rest_of, register, has_timed_out, dup_channels, restart_tasks, dials, wait_time,
  next_backoff,
}
use realtime_py.Async.{
  Co, block, lift, bind, run, run_next, run-bind, run-try, await, skip, when, for_each, try, ◌>>=◌,
  ◌>>◌,
}
use realtime_py.Async.Calls.{
  hand, dial, slept_for, after_send, send_message, send, push_send, resend, unsubscribe,
  leave_open_topic, rejoin, flush_send_buffer, on_connect, attempt, retry, connect_loop, connect,
}

-- The coroutine, run alone, is the call.
pub record Alone {A : Type 0} (c : Co A) (m : M A) : Type 0 where
  pub runs : (w : World) → run c w ≡ m w

pub Alone-lift : {A : Type 0} (m : M A) → Alone (lift m) m
unfolding run
Alone-lift m = record { runs = λ w. refl }

pub Alone-bind :
    {A B : Type 0} {c : Co A} {m : M A} {g : A → Co B} {f : A → M B}
    → Alone c m
    → ((a : A) → Alone (g a) (f a))
    → Alone (bind g c) (World.◌>>=◌ m f)
Alone-bind {A} {B} {c} {m} {g} {f} first rest = record {
  runs = λ w. run-bind g c w ∙ ap (continue (λ a. run (g a))) (first.runs w) ∙ going (m w);
}
  where
    going : (x : Outcome A × World) → continue (λ a. run (g a)) x ≡ continue f x
    going (returns a, w) = (rest a).runs w
    going (raises e, w) = refl

-- A coroutine that reads the store first.
pub Alone-read :
    {A B : Type 0} (f : World → A) {g : A → Co B} (h : A → M B)
    → ((a : A) → Alone (g a) (h a))
    → Alone (bind g (lift (gets f))) (λ w. h (f w) w)
unfolding run
Alone-read f {g} h rest = record { runs = λ w. run-bind g (lift (gets f)) w ∙ (rest (f w)).runs w }

pub Alone-if :
    {A : Type 0} (b : Bool) {c d : Co A} {m k : M A}
    → Alone c m
    → Alone d k
    → Alone (if◌then◌else◌ {A = Co A} b c d) (λ w. if b then m w else k w)
Alone-if true a a' = record { runs = a.runs }
Alone-if false a a' = record { runs = a'.runs }

pub Alone-choice :
    {A : Type 0} (b : Bool) {c d : Co A} {m k : M A}
    → Alone c m
    → Alone d k
    → Alone (if◌then◌else◌ {A = Co A} b c d) (if◌then◌else◌ {A = M A} b m k)
Alone-choice true a a' = a
Alone-choice false a a' = a'

pub Alone-when : (b : Bool) {c : Co ⊤} {m : M ⊤} → Alone c m → Alone (when b c) (World.when b m)
Alone-when true a = a
Alone-when false a = Alone-lift (pure tt)

pub Alone-for_each :
    {A : Type 0} {f : A → Co ⊤} {g : A → M ⊤} (xs : List A)
    → ((x : A) → Alone (f x) (g x))
    → Alone (for_each f xs) (World.for_each g xs)
Alone-for_each [] a = Alone-lift (pure tt)
Alone-for_each (x ∷ xs) a = Alone-bind (a x) (λ _. Alone-for_each xs a)

pub Alone-await : {A : Type 0} {c : Co A} {m : M A} → Alone c m → Alone (await >> c) m
unfolding run
Alone-await {c} a = record { runs = λ w. run-bind (λ _. c) await w ∙ a.runs w }

Alone-pause :
    {A : Type 0} (n : ℕ) {c : Co A} {m : M A}
    → Alone c m
    → Alone (lift (slept_for n) >> await >> c) (λ w. m (record w { slept = w.slept ++ n ∷ [] }))
unfolding run bind slept_for
Alone-pause n {c} a = record {
  runs = λ w.
      run-bind (λ _. c) (lift (slept_for n) >> await) w
      ∙ a.runs (record w { slept = w.slept ++ n ∷ [] });
}
