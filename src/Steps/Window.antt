-- ===== src/Steps/Window.antt =====
-- The window between the callback thread's announcement of a reconnect and its look at the socket:
-- there a disconnect by the user leaves an open socket open.
use lufthansa.Base.{ℕ, ◌≡◌, sym, subst, true, none, some, arith, ok}
use lufthansa.State.{Connection, Thread}
use lufthansa.Lifecycle.{disconnect, get_connection_state, connected}

abbrev pub LeavesOpen : Thread → ℕ → Connection → Type 0
LeavesOpen self handle s =
    let (r, t) = disconnect self s in
    (r ≡ ok tt)
    × (t.socket ≡ some handle)
    × (t.callback ≡ none)
    × (get_connection_state t ≡ connected)

leaves_open :
    (self : Thread) (handle at : ℕ) (s : Connection)
    → LeavesOpen self handle
        (record s { socket = some handle; callback = some at; auto_reconnect_pending = true })
unfolding disconnect get_connection_state
leaves_open self handle at s = ground arith

-- If the user disconnects an open connection for which a reconnect is pending, `disconnect` reports
-- success, but the socket stays open, the connection state stays connected, and the callback context
-- is gone.
pub disconnect-LeavesOpen :
    (self : Thread) (handle at : ℕ) (s : Connection)
    → s.socket ≡ some handle
    → s.callback ≡ some at
    → s.auto_reconnect_pending ≡ true
    → LeavesOpen self handle s
disconnect-LeavesOpen self handle at s held context announced =
    subst (LeavesOpen self handle)
      (λ i. record s {
        socket = sym held i;
        callback = sym context i;
        auto_reconnect_pending = sym announced i;
      })
      (leaves_open self handle at s)
