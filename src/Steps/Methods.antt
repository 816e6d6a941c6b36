-- ===== src/Steps/Methods.antt =====
-- Each step of the connection's threads, at a state whose fields are written out: it keeps the state
-- in good order and does to the link what the specification says.
use lufthansa.Base.{
  ℕ, is_number, ℤ, String, ◌≡◌, refl, Bool, true, false, ◌&&◌, not, Option, none, some, arith,
  is_none,
}
use lufthansa.State.{Connection, Thread, Packet}
use lufthansa.Lifecycle.{
  connect, disconnect, send, handle_disconnect_by_peer, set_auto_reconnect, set_timeout,
}
use lufthansa.Lifecycle.{connect_unlocked}
use lufthansa.Lifecycle.Connect.{attempt}
use lufthansa.Lifecycle.Consistent.{Fits, IsConsistent}
use lufthansa.Receive.{handle_response}
use lufthansa.Request.{probe}
use lufthansa.Dispatch.{drop_socket, reconnect}
use lufthansa.Steps.Link.{link, next_link}
use lufthansa.Steps.{
  goes_through, probe_fails, connecting, sending, dropping, retrying, probing, setting,
  disconnecting, losing, other, Event, one_try,
}

-- The five fields of the invariant written out.
abbrev pub with_fields :
    Connection → Option ℕ → Option ℕ → Option ℕ → Option Bool → Option Bool → Connection
with_fields s socket callback queue probe receive = record s {
  socket = socket;
  callback = callback;
  disconnect_probe_queue = queue;
  disconnect_probe_thread = probe;
  receive_thread = receive;
}

-- A step to a state that is in good order, and as the specification has it.
abbrev pub Fulfils : Event → Connection → Connection → Type 0
Fulfils e s t = IsConsistent t × (link t ≡ next_link e (link s))

-- A method with its event, at such a state.
abbrev pub Keeps :
    (Connection → Event)
    → (Connection → Connection)
    → Option ℕ
    → Option ℕ
    → Option ℕ
    → Option Bool
    → Option Bool
    → Connection
    → Type 0
Keeps e f socket callback queue probe receive s =
    let t = with_fields s socket callback queue probe receive in Fulfils (e t) t (f t)

module _ (self : Thread) (host : String) (port : ℕ) where
  pub connect_kept :
      (c : Bool) (a : Option ℕ) (p : Bool) (socket callback queue : Option ℕ)
      (probe receive : Option Bool) (s : Connection)
      → Fits socket callback queue probe receive
      → Keeps
          (λ t. connecting (goes_through (attempt c a p) t))
          (λ t. (connect self (attempt c a p) host port t).1)
          socket
          callback
          queue
          probe
          receive
          s
  unfolding connect
  connect_kept c a p (some h) callback queue probe receive s fits = (fits, refl)
  connect_kept false a p none none queue probe receive s fits = (fits, refl)
  connect_kept true none p none none queue probe receive s fits = ground arith
  connect_kept true (some h) true none none queue probe receive s fits = ground arith
  connect_kept true (some h) false none none queue probe receive s fits = ground arith
  connect_kept c none p none (some at) queue probe receive s fits = ground arith
  connect_kept c (some h) true none (some at) queue probe receive s fits = ground arith
  connect_kept c (some h) false none (some at) queue probe receive s fits = ground arith

module _ (self : Thread) where
  pub reconnect_kept :
      (c : Bool) (a : Option ℕ) (p allowed : Bool) (socket callback queue : Option ℕ)
      (probe receive : Option Bool) (s : Connection)
      → Fits socket callback queue probe receive
      → Keeps
          (λ t. retrying (goes_through (attempt c a p) t))
          (λ t. (reconnect self (one_try (attempt c a p)) t).1)
          socket
          callback
          queue
          probe
          receive
          (record s { auto_reconnect_allowed = allowed })
  unfolding reconnect connect_unlocked
  reconnect_kept c a p allowed (some h) callback queue probe receive s fits = ground arith
  reconnect_kept c a p false none callback queue probe receive s fits = ground arith
  reconnect_kept false a p true none none queue probe receive s fits = ground arith
  reconnect_kept true none p true none none queue probe receive s fits = ground arith
  reconnect_kept true (some h) true true none none queue probe receive s fits = ground arith
  reconnect_kept true (some h) false true none none queue probe receive s fits = ground arith
  reconnect_kept c none p true none (some at) queue probe receive s fits = ground arith
  reconnect_kept c (some h) true true none (some at) queue probe receive s fits = ground arith
  reconnect_kept c (some h) false true none (some at) queue probe receive s fits = ground arith

pub disconnect_kept :
    (self : Thread) (pending : Bool) (socket callback queue : Option ℕ)
    (probe receive : Option Bool) (s : Connection)
    → Fits socket callback queue probe receive
    → pending && not (is_none socket) ≡ false
    → Keeps
        (λ t. disconnecting)
        (λ t. (disconnect self t).1)
        socket
        callback
        queue
        probe
        receive
        (record s { auto_reconnect_pending = pending })
unfolding disconnect
disconnect_kept self true (some h) callback queue probe receive s fits out = cc
disconnect_kept self true none none queue probe receive s fits out = ground arith
disconnect_kept self true none (some at) queue probe receive s fits out = ground arith
disconnect_kept self false none none queue probe receive s fits out = ground arith
disconnect_kept self false none (some at) queue probe receive s fits out = ground arith
disconnect_kept self false (some h) none queue probe receive s fits out = absurd (fits.0 refl)
disconnect_kept self false (some h) (some at) none probe receive s fits out = absurd (fits.1 refl)
disconnect_kept self false (some h) (some at) (some n) (some true) (some true) s fits out =
    ground arith
disconnect_kept self false (some h) (some at) (some n) none receive s fits out = cc
disconnect_kept self false (some h) (some at) (some n) (some false) receive s fits out = cc
disconnect_kept self false (some h) (some at) (some n) (some true) none s fits out = cc
disconnect_kept self false (some h) (some at) (some n) (some true) (some false) s fits out = cc

pub send_kept :
    (written : Bool) (p : Packet) (socket callback queue : Option ℕ) (probe receive : Option Bool)
    (s : Connection)
    → Fits socket callback queue probe receive
    → Keeps (λ t. sending written) (λ t. (send written p t).1) socket callback queue probe receive s
unfolding send
send_kept written p none callback queue probe receive s fits = (fits, refl)
send_kept true p (some h) callback queue probe receive s fits = (fits, refl)
send_kept false p (some h) none queue probe receive s fits = absurd (fits.0 refl)
send_kept false p (some h) (some at) none probe receive s fits = absurd (fits.1 refl)
send_kept false p (some h) (some at) (some n) (some true) (some true) s fits = ground arith
send_kept false p (some h) (some at) (some n) none receive s fits = cc
send_kept false p (some h) (some at) (some n) (some false) receive s fits = cc
send_kept false p (some h) (some at) (some n) (some true) none s fits = cc
send_kept false p (some h) (some at) (some n) (some true) (some false) s fits = cc

pub drop_socket_kept :
    (socket_id : ℕ) (socket callback queue : Option ℕ) (probe receive : Option Bool)
    (s : Connection)
    → Fits socket callback queue probe receive
    → Keeps
        (λ t. dropping (is_number (some socket_id) t.socket_id))
        (λ t. (drop_socket (some socket_id) t).1)
        socket
        callback
        queue
        probe
        receive
        s
drop_socket_kept socket_id none callback queue probe receive s fits = ground arith
drop_socket_kept socket_id (some h) callback none probe receive s fits = absurd (fits.1 refl)
drop_socket_kept socket_id (some h) callback (some n) (some true) receive s fits = ground arith
drop_socket_kept socket_id (some h) callback (some n) none receive s fits = cc
drop_socket_kept socket_id (some h) callback (some n) (some false) receive s fits = cc

pub probe_kept :
    (written : Bool) (p : Packet) (socket callback queue : Option ℕ)
    (probing_thread receive : Option Bool) (s : Connection)
    → Fits socket callback queue probing_thread receive
    → Keeps
        (λ t. probing (probe_fails written t))
        (λ t. (probe written p t).1)
        socket
        callback
        queue
        probing_thread
        receive
        s
unfolding probe handle_disconnect_by_peer
probe_kept written p none callback queue probing_thread receive s fits = ground arith
probe_kept true p (some h) callback queue probing_thread receive s fits = ground arith
probe_kept false p (some h) none queue probing_thread receive s fits = absurd (fits.0 refl)
probe_kept false p (some h) (some at) queue probing_thread receive s fits = ground arith

pub losing_kept :
    (reason socket_id : ℕ) (s : Connection)
    → IsConsistent s
    → Fulfils losing s (handle_disconnect_by_peer reason (some socket_id) false s).1
unfolding handle_disconnect_by_peer
losing_kept reason socket_id s inv = ground arith

pub setting_kept :
    (wanted : Bool) (s : Connection)
    → IsConsistent s
    → Fulfils (setting wanted) s (set_auto_reconnect wanted s).1
unfolding set_auto_reconnect
setting_kept true s inv = ground arith
setting_kept false s inv = ground arith

pub handle_response_kept :
    (p : Packet) (s : Connection) → IsConsistent s → Fulfils other s (handle_response p s).1
unfolding handle_response
handle_response_kept p s inv = ground arith

pub set_timeout_kept :
    (t : ℤ) (s : Connection) → IsConsistent s → Fulfils other s (set_timeout t s).1
unfolding set_timeout
set_timeout_kept t s inv = ground arith
