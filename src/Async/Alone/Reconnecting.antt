-- ===== src/Async/Alone/Reconnecting.antt =====
-- `_reconnect` and `_on_connect_error` of realtime/_async/client.py as coroutines, run alone.
use realtime_py.Prelude.{ℕ, zero, suc, refl, Bool, true, false, if◌then◌else◌}
use realtime_py.Prelude.Dict.{Dict}
use realtime_py.World.{World, out_of_fuel, M, ⊤, returns, raise, gets, ◌>>=◌}
use realtime_py.World
use realtime_py.World.Keeps.{Keeps}
use realtime_py.Socket
use realtime_py.Socket.{values}
use realtime_py.Async.{Co, run, when}
use realtime_py.Async.Calls.{rejoin, for_channels, reconnect, on_connect_error, on_closed}
use realtime_py.Async.Alone.{Alone, Alone-lift, Alone-bind, Alone-read}
use realtime_py.Async.Alone.Loops.{Listed, Listed-Steady, Alone-for_channels}
use realtime_py.Async.Alone.Sending.{Alone-rejoin, Alone-connect}
use realtime_py.Stable.Sends.{Keeps-rejoin}
use realtime_py.Stable.Connects.{Keeps-on_closed}

Alone-when_if :
    (b : Bool) {c : Co ⊤} {m : M ⊤}
    → Alone c m
    → Alone (when b c) (λ w. if b then m w else (returns tt, w))
Alone-when_if true a = record { runs = a.runs }
Alone-when_if false a = Alone-lift (World.pure tt)

module _ (closed : Co ⊤) (call : M ⊤) (same : Alone closed call)
    (kept : (d : Dict ℕ) → Keeps (Listed d) call) where
  Alone-rejoin_all :
      (b : Bool)
      → Alone
          (when b (for_channels (rejoin closed)))
          (gets values >>= λ topics. World.when b (World.for_each (Socket.rejoin call) topics))
  unfolding run
  Alone-rejoin_all true = record {
    runs =
        (Alone-for_channels (Alone-rejoin closed call same)
          (λ d c. Keeps-rejoin call (kept d) c)).runs;
  }
  Alone-rejoin_all false = record { runs = λ w. refl }

  Alone-reconnect : Alone (reconnect closed) (Socket.reconnect call)
  unfolding reconnect Socket.reconnect
  Alone-reconnect = Alone-bind (Alone-lift _) (λ _.
      Alone-bind (Alone-connect closed call same)
        (λ _. Alone-bind (Alone-lift (gets (λ w. w.is_connected))) Alone-rejoin_all))

  pub Alone-on_connect_error : Alone (on_connect_error closed) (Socket.on_connect_error call)
  unfolding on_connect_error Socket.on_connect_error
  Alone-on_connect_error =
      Alone-read (λ w. w.auto_reconnect)
        (λ b w. if b then Socket.reconnect call w else (returns tt, w))
        (λ b. Alone-when_if b Alone-reconnect)

pub Alone-on_closed : (fuel : ℕ) → Alone (on_closed fuel) (Socket.on_closed fuel)
unfolding on_closed Socket.on_closed
Alone-on_closed zero = Alone-lift (raise out_of_fuel)
Alone-on_closed (suc fuel) =
    Alone-on_connect_error (on_closed fuel) (Socket.on_closed fuel) (Alone-on_closed fuel)
      (λ d. Keeps-on_closed fuel)
