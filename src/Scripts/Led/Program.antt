-- ===== src/Scripts/Led/Program.antt =====
-- The whole run of scripts/led.py.
use lufthansa.Base.{ℕ, ◌≡◌, refl, List, ◌++◌, map, true, false, none, some, drop, ℤ, arith, ok, ◌∙◌}
use lufthansa.Base58.{base58decode}
use lufthansa.Format.{Value}
use lufthansa.State.{World, Connection, user}
use lufthansa.Device.{initial_flags, get_response_expected}
use lufthansa.Lifecycle.{get_connection_state, disconnected}
use lufthansa.Lifecycle.Connect.{success}
use lufthansa.Lifecycle.Consistent.{IsConsistent}
use lufthansa.Lifecycle.Disconnect.{disconnect_open}
use lufthansa.Maintenance.{blank_connection}
use lufthansa.Scripts.{is_three, int_argument}
use lufthansa.Scripts.Sends.{IsReady, Writes, Sends, Sends-same}
use lufthansa.Scripts.Led.{setup, opr2, finish, main}
use lufthansa.Scripts.Led.Shown.{clears, lit, Found, opr2-Shows}

-- The connection with which the main program goes on.
prepared : ℕ → Connection
unfolding setup
prepared handle = (setup (success handle) blank_connection).1

setup_lem : (handle : ℕ) → setup (success handle) blank_connection ≡ (ok (some 1), prepared handle)
unfolding setup prepared blank_connection base58decode
setup_lem handle = refl

prepared-IsReady : (handle : ℕ) → IsReady 1 handle (prepared handle)
unfolding prepared setup blank_connection get_response_expected initial_flags base58decode
prepared-IsReady handle = record {
  is_open = refl;
  counted = omega arith;
  uid_fits = omega arith;
  unanswered = refl;
}

prepared-IsConsistent : (handle : ℕ) → IsConsistent (prepared handle)
unfolding prepared setup blank_connection base58decode
prepared-IsConsistent handle = ground arith

prepared_fields :
    (handle : ℕ)
    → ((prepared handle).callback ≡ some 0) × ((prepared handle).auto_reconnect_pending ≡ false)
unfolding prepared setup blank_connection base58decode
prepared_fields handle = (refl, refl)

-- The end of the program closes the connection, and what it registers as callback is None.
finish-closes :
    (ls handle at : ℕ) (s : Connection)
    → s.socket ≡ some handle
    → s.callback ≡ some at
    → s.auto_reconnect_pending ≡ false
    → IsConsistent s
    → ((finish ls s).0 ≡ ok tt)
      × (get_connection_state (finish ls s).1 ≡ disconnected)
      × (((finish ls s).1.objects ls).registered_callbacks 6 ≡ some none)
unfolding finish get_connection_state
finish-closes ls handle at s held context idle inv =
    let gone = disconnect_open user handle at s held context idle inv in ground (arith, gone)

IsConsistent-same :
    (s t : Connection)
    → (t.socket ≡ s.socket)
      × (t.callback ≡ s.callback)
      × (t.auto_reconnect_pending ≡ s.auto_reconnect_pending)
      × (t.disconnect_probe_queue ≡ s.disconnect_probe_queue)
      × (t.disconnect_probe_thread ≡ s.disconnect_probe_thread)
      × (t.receive_thread ≡ s.receive_thread)
    → IsConsistent s
    → IsConsistent t
IsConsistent-same s t (p, q, _, r, u, v) inv = rw (p, q, r, u, v) inv

main-then :
    (handle : ℕ) (world : World) (argv : List (List ℕ)) (t : Connection)
    → opr2 world 1 argv (prepared handle) ≡ (ok tt, t)
    → (finish 1 t).0 ≡ ok tt
    → main (success handle) world argv blank_connection ≡ (ok true, (finish 1 t).1)
unfolding main
main-then handle world argv t sent closed = rw (setup_lem handle, sent, closed)

-- What a run of the program does: from the state in which the LED strip object has been made it
-- sends these requests, in order, and then `finish` closes the connection. The callback that it
-- registers for rendered frames is None.
abbrev pub Runs : ℕ → World → List (List ℕ) → List (List Value) → Type 0
Runs handle world argv calls =
    let (r, u) = main (success handle) world argv blank_connection in
    (s : Connection) × (t : Connection) × (setup (success handle) blank_connection
      ≡ (ok (some 1), s))
    × Sends 1 calls s t
    × (u ≡ (finish 1 t).1)
    × (r ≡ ok true)
    × (get_connection_state u ≡ disconnected)
    × ((u.objects 1).registered_callbacks 6 ≡ some none)

-- If the peer accepts and the socket takes every packet, led.py with a state other than 3 and texts
-- that name positions runs to its end: it turns the 200 LEDs off, shows the state at each position,
-- and disconnects. It leaves None registered as the callback for rendered frames.
pub main-Runs :
    (handle : ℕ) (world : World) (argv : List (List ℕ)) (state : ℤ) (positions : List ℕ)
    → Writes world
    → int_argument argv 1 ≡ ok state
    → is_three state ≡ false
    → Found (drop 2 argv) positions
    → Runs handle world argv (clears 20 0 ++ map (lit state) positions)
main-Runs handle world argv state positions writes read not_three found =
    let s = prepared handle in
    let shown =
      opr2-Shows world writes 1 handle argv state positions s read not_three found
        (prepared-IsReady handle) in
    let t = shown.after in
    let same = Sends-same shown.sends in
    let (context, idle) = prepared_fields handle in
    let (closed, gone, callback) =
      finish-closes 1 handle 0 t shown.ready.is_open (same.1 ∙ context) (same.2 ∙ idle)
        (IsConsistent-same s t same (prepared-IsConsistent handle)) in
    rw (main-then handle world argv t shown.returns closed)
      (s, t, setup_lem handle, shown.sends, refl, refl, gone, callback)
