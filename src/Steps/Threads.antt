-- ===== src/Steps/Threads.antt =====
-- All that the bindings do, on any thread, is made of steps.
use lufthansa.Base.{ℕ, List, Bool, All}
use lufthansa.Format.{Value}
use lufthansa.State.{Method, Connection, Packet}
use lufthansa.Lifecycle.Consistent.{IsConsistent}
use lufthansa.Receive
use lufthansa.Receive.{receive_loop}
use lufthansa.Request.{disconnect_probe_loop, Expiry}
use lufthansa.Dispatch.{Round, callback_loop}
use lufthansa.Bindings.{invoke}
use lufthansa.Bindings.Class.{Function}
use lufthansa.Steps.Invariant.{Reach-IsConsistent}
use lufthansa.Steps.Run.{IsRun}
use lufthansa.Steps.Calls.{invoke-IsRun}
use lufthansa.Steps.Loops.{IsFair, receive_loop-IsRun, disconnect_probe_loop-IsRun}
use lufthansa.Steps.Callbacks.{IsFairRound, callback_loop-IsRun}

after_run :
    {A : Type 0} (m : Method A) (s : Connection) → IsConsistent s → IsRun m → IsConsistent (m s).1
after_run m s inv made = Reach-IsConsistent inv (made.run s).1

-- Each of the loops, of the receive thread, of the prober and of the callback thread, leaves a
-- connection in good order that it finds in good order, whatever the socket brings and whether it
-- returns or raises. Between two reads, two expiries and two items, while the callback thread sleeps and
-- in a user's function, anything may happen that is a run of steps itself. Each receive thread that a
-- reconnect creates can be started.
pub loops-IsConsistent :
    (socket_id : ℕ) (pending_data : List ℕ) (events : List Receive.Event) (expiries : List Expiry)
    (at : ℕ) (rounds : List Round) (s : Connection)
    → All (λ e. IsFair e.meanwhile) events
    → All (λ e. IsFair e.meanwhile) expiries
    → All IsFairRound rounds
    → IsConsistent s
    → IsConsistent (receive_loop socket_id pending_data events s).1
      × IsConsistent (disconnect_probe_loop expiries s).1
      × IsConsistent (callback_loop at rounds s).1
loops-IsConsistent socket_id pending_data events expiries at rounds s fair fair_expiries fair_rounds
      inv =
    (
      after_run _ s inv (receive_loop-IsRun socket_id pending_data events fair),
      after_run _ s inv (disconnect_probe_loop-IsRun expiries fair_expiries),
      after_run _ s inv (callback_loop-IsRun at rounds fair_rounds),
    )

-- A call of any method on any device object, with any arguments, is a run of steps, whatever arrives
-- while it waits and whether it returns or raises. A connection in good order is in good order after
-- it.
pub invoke-IsConsistent :
    (written : Bool) (arrivals : List Packet) (at : ℕ) (f : Function) (args : List Value)
    (s : Connection)
    → IsConsistent s
    → IsRun (invoke written arrivals at f args)
      × IsConsistent (invoke written arrivals at f args s).1
invoke-IsConsistent written arrivals at f args s inv =
    let call = invoke-IsRun written arrivals at f args in
    (call, Reach-IsConsistent inv (call.run s).1)
