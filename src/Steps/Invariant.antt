-- ===== src/Steps/Invariant.antt =====
-- Every step of every thread, and every run.
use lufthansa.Base.{◌≡◌, sym, subst, refl, List, true}
use lufthansa.State.{Connection}
use lufthansa.Lifecycle.{Attempt, connect, register_callback}
use lufthansa.Lifecycle.Connect.{attempt}
use lufthansa.Lifecycle.Consistent.{IsConsistent}
use lufthansa.Request.{get_next_sequence_number}
use lufthansa.Dispatch.{reconnect}
use lufthansa.Steps.{
  Event, Step, connects, disconnects, sends, loses, drops, wants, retries, probes, sets, receives,
  numbers, takes, acts, times, registers, changes, draws, Reach, here, later, one_try, goes_through,
  connecting, retrying,
}
use lufthansa.Steps.Methods.{
  Fulfils, connect_kept, reconnect_kept, disconnect_kept, send_kept, drop_socket_kept, probe_kept,
  losing_kept, setting_kept, handle_response_kept, set_timeout_kept,
}

-- An attempt whose receive thread starts.
attempt_lem :
    (att : Attempt)
    → att.receiver_starts ≡ true
    → attempt att.callback_starts att.accepted att.probe_starts ≡ att
attempt_lem att starts = λ i. record att { receiver_starts = sym starts i }

-- Every step leaves the connection in good order, and does to the link what its event says.
pub Step-Fulfils :
    {s : Connection} {e : Event} {t : Connection} → Step s e t → IsConsistent s → Fulfils e s t
unfolding get_next_sequence_number register_callback
Step-Fulfils {s} (connects self att host port starts) inv =
    subst (λ a. Fulfils (connecting (goes_through a s)) s (connect self a host port s).1)
      (attempt_lem att starts)
      (connect_kept self host port att.callback_starts att.accepted att.probe_starts s.socket
        s.callback s.disconnect_probe_queue s.disconnect_probe_thread s.receive_thread s inv)
Step-Fulfils {s} (disconnects self out) inv =
    disconnect_kept self s.auto_reconnect_pending s.socket s.callback s.disconnect_probe_queue
      s.disconnect_probe_thread s.receive_thread s inv out
Step-Fulfils {s} (sends written p) inv =
    send_kept written p s.socket s.callback s.disconnect_probe_queue s.disconnect_probe_thread
      s.receive_thread s inv
Step-Fulfils {s} (loses reason socket_id) inv = losing_kept reason socket_id s inv
Step-Fulfils {s} (drops socket_id) inv =
    drop_socket_kept socket_id s.socket s.callback s.disconnect_probe_queue
      s.disconnect_probe_thread s.receive_thread s inv
Step-Fulfils wants inv = (inv, refl)
Step-Fulfils {s} (retries self att starts) inv =
    subst (λ a. Fulfils (retrying (goes_through a s)) s (reconnect self (one_try a) s).1)
      (attempt_lem att starts)
      (reconnect_kept self att.callback_starts att.accepted att.probe_starts
        s.auto_reconnect_allowed s.socket s.callback s.disconnect_probe_queue
        s.disconnect_probe_thread s.receive_thread s inv)
Step-Fulfils {s} (probes written p) inv =
    probe_kept written p s.socket s.callback s.disconnect_probe_queue s.disconnect_probe_thread
      s.receive_thread s inv
Step-Fulfils {s} (sets wanted) inv = setting_kept wanted s inv
Step-Fulfils {s} (receives p) inv = handle_response_kept p s inv
Step-Fulfils numbers inv = (inv, refl)
Step-Fulfils (takes at items) inv = (inv, refl)
Step-Fulfils (acts e) inv = (inv, refl)
Step-Fulfils {s} (times t) inv = set_timeout_kept t s inv
Step-Fulfils (changes devices objects object_count) inv = (inv, refl)
Step-Fulfils (draws n) inv = (inv, refl)
Step-Fulfils (registers id callback) inv = (inv, refl)

-- Whatever steps the threads make, in whatever order, from a connection in good order, as long as
-- every receive thread can be started and no open connection is disconnected by the user while a
-- reconnect is pending: an open socket has its callback context, its probe queue and both of its
-- threads, and a closed one has no probe thread.
pub Reach-IsConsistent :
    {s : Connection} {es : List Event} {t : Connection}
    → IsConsistent s
    → Reach s es t
    → IsConsistent t
Reach-IsConsistent inv here = inv
Reach-IsConsistent inv (later r step) = (Step-Fulfils step (Reach-IsConsistent inv r)).0
