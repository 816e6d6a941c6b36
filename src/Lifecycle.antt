-- ===== src/Lifecycle.antt =====
-- scripts/tinkerforge/ip_connection.py: opening and closing the connection. A method runs as one
-- step, under the locks that it takes. Whether a thread starts, the socket connects or a write goes
-- through is the environment's choice, so it is an argument.
pub mod Connect
pub mod Disconnect
pub mod Consistent
pub mod FailedStart
pub mod Send
use lufthansa.Base.{
  ℕ, zero, suc, ◌+◌, ◌-◌, List, [], ◌∷◌, Bool, true, false, not, is_none, ◌==◌, if◌then◌else◌,
  Option, none, some, String, update, ℤ, pos, negsuc, Result, ok, err, ip_error, already_connected,
  not_connected, value_error, attribute_error, runtime_error, os_error, raise, gets, modify, skip,
  when, pure, lift, ◌>>=◌, ◌>>◌,
}
use lufthansa.State.{
  Connection, CallbackContext, Method, Item, exit, meta, Thread, user, receiver, prober,
  callback_processor, started, joined, shut_down, closed, sent, Packet, emit, put_callback,
  allow_dispatch, enqueue,
}
use lufthansa.State.Constant

-- What the environment does during one call of `connect_unlocked`: whether each of the three
-- threads starts, and the new socket, if the peer accepts.
pub record Attempt : Type 0 where
  pub callback_starts : Bool
  pub accepted : Option ℕ
  pub probe_starts : Bool
  pub receiver_starts : Bool

-- `thread.join()`: `None` has no such method, and a thread that never started cannot be joined.
abbrev pub join : Option Bool → Thread → Method (Unit {0})
join none t = raise attribute_error
join (some false) t = raise runtime_error
join (some true) t = emit (joined t)

abbrev pub is_thread : Thread → ℕ → Bool
is_thread (callback_processor m) n = m == n
is_thread _ n = false

-- if current_thread() is not callback.thread: callback.thread.join()
abbrev pub join_callback : Thread → ℕ → Method (Unit {0})
join_callback self at = when (not (is_thread self at)) (emit (joined (callback_processor at)))

-- self.disconnect_probe_queue.put(True)
abbrev pub stop_prober : Option ℕ → Method (Unit {0})
stop_prober none = raise attribute_error
stop_prober (some n) = modify λ s. record s { disconnect_probe_queue = some (n + 1) }

abbrev pub close_socket : Option ℕ → Method (Unit {0})
close_socket none = raise attribute_error
close_socket (some handle) = emit (closed handle)

-- self.socket.shutdown(...), whose error is passed over
abbrev pub shutdown_socket : Option ℕ → Method (Unit {0})
shutdown_socket none = raise attribute_error
shutdown_socket (some handle) = emit (shut_down handle)

-- end disconnect probe thread
abbrev pub end_prober : Method (Unit {0})
end_prober = do
  stop_prober (← gets (λ s. s.disconnect_probe_queue))
  join (← gets (λ s. s.disconnect_probe_thread)) prober
  modify (λ s. record s { disconnect_probe_thread = none })

abbrev pub end_receiver : Option Bool → Method (Unit {0})
end_receiver none = skip
end_receiver (some b) = do join (some b) receiver; modify (λ s. record s { receive_thread = none })

unfoldable pub disconnect_unlocked : Method (Unit {0})
disconnect_unlocked = do
  end_prober
  allow_dispatch (← gets (λ s. s.callback)) false
  modify (λ s. record s { receive_flag = false })
  shutdown_socket (← gets (λ s. s.socket))
  end_receiver (← gets (λ s. s.receive_thread))
  close_socket (← gets (λ s. s.socket))
  modify (λ s. record s { socket = none })

unfoldable pub handle_disconnect_by_peer : ℕ → Option ℕ → Bool → Method (Unit {0})
unfolding disconnect_unlocked
handle_disconnect_by_peer disconnect_reason socket_id disconnect_immediately = do
  modify (λ s. record s { auto_reconnect_allowed = true })
  when disconnect_immediately disconnect_unlocked
  put_callback (← gets (λ s. s.callback))
      (meta Constant.callback_disconnected disconnect_reason socket_id)

-- The part of the cleanup functions that ends the callback thread of a connect by the user.
abbrev pub end_callback : Thread → Option ℕ → Method (Unit {0})
end_callback self none = raise attribute_error
end_callback self (some at) = do
  put_callback (some at) exit
  join_callback self at
  modify (λ s. record s { callback = none })

abbrev pub cleanup_callback : Thread → Bool → Method (Unit {0})
cleanup_callback self is_auto_reconnect =
    when (not is_auto_reconnect) do end_callback self (← gets (λ s. s.callback))

abbrev pub fresh_context : CallbackContext
fresh_context = record { queue = []; packet_dispatch_allowed = false }

-- create callback thread and queue
abbrev pub create_callback : Bool → Option ℕ → Method (Unit {0})
create_callback starts (some at) = skip
create_callback starts none = do
  at ← gets (λ s. s.context_count)
  modify λ s. record s {
    callback = some at;
    contexts = update s.contexts at fresh_context;
    context_count = s.context_count + 1;
  }
  (if starts
      then emit (started (callback_processor at))
      else (modify (λ s. record s { callback = none }) >> raise runtime_error))

-- create and connect socket
abbrev pub create_socket : Thread → Bool → Option ℕ → Method (Unit {0})
create_socket self is_auto_reconnect none = do
  cleanup_callback self is_auto_reconnect
  raise os_error
create_socket self is_auto_reconnect (some handle) =
    modify λ s. record s { socket = some handle; socket_id = s.socket_id + 1 }

-- create disconnect probe thread
abbrev pub create_prober : Thread → Bool → Bool → Method (Unit {0})
create_prober self is_auto_reconnect starts = do
  modify λ s. record s {
    disconnect_probe_flag = true;
    disconnect_probe_queue = some 0;
    disconnect_probe_thread = some starts;
  }
  (if starts then emit (started prober) else do
    modify (λ s. record s { disconnect_probe_thread = none })
    close_socket (← gets (λ s. s.socket))
    modify (λ s. record s { socket = none })
    cleanup_callback self is_auto_reconnect
    raise runtime_error)

-- create receive thread
abbrev pub create_receiver : Thread → Bool → Bool → Method (Unit {0})
create_receiver self is_auto_reconnect starts = do
  allow_dispatch (← gets (λ s. s.callback)) true
  modify (λ s. record s { receive_flag = true; receive_thread = some starts })
  (if starts
      then emit (started receiver)
      else do disconnect_unlocked; cleanup_callback self is_auto_reconnect; raise runtime_error)

abbrev pub connect_reason : Bool → ℕ
connect_reason true = Constant.connect_reason_auto_reconnect
connect_reason false = Constant.connect_reason_request

unfoldable pub connect_unlocked : Thread → Attempt → Bool → Method (Unit {0})
unfolding disconnect_unlocked
connect_unlocked self att is_auto_reconnect = do
  create_callback att.callback_starts (← gets (λ s. s.callback))
  create_socket self is_auto_reconnect att.accepted
  create_prober self is_auto_reconnect att.probe_starts
  create_receiver self is_auto_reconnect att.receiver_starts
  modify (λ s. record s { auto_reconnect_allowed = false; auto_reconnect_pending = false })
  put_callback (← gets (λ s. s.callback))
      (meta Constant.callback_connected (connect_reason is_auto_reconnect) none)

unfoldable pub connect : Thread → Attempt → String → ℕ → Method (Unit {0})
unfolding connect_unlocked
connect self att host port = do
  held ← gets (λ s. s.socket)
  (if not (is_none held) then raise (ip_error already_connected) else do
    modify (λ s. record s { host = some host; port = some port })
    connect_unlocked self att false)

-- The part of `disconnect` under the socket lock.
abbrev pub release_socket : Bool → Option ℕ → Method (Unit {0})
release_socket true held = modify λ s. record s { auto_reconnect_pending = false }
release_socket false none = raise (ip_error not_connected)
release_socket false (some handle) = disconnect_unlocked

-- The messages to the callback thread that `disconnect` has taken off the connection.
abbrev pub dismiss : Thread → Option ℕ → Method (Unit {0})
dismiss self none = raise attribute_error
dismiss self (some at) = do
  put_callback (some at)
      (meta Constant.callback_disconnected Constant.disconnect_reason_request none)
  put_callback (some at) exit
  join_callback self at

unfoldable pub disconnect : Thread → Method (Unit {0})
unfolding disconnect_unlocked
disconnect self = do
  modify (λ s. record s { auto_reconnect_allowed = false })
  pending ← gets (λ s. s.auto_reconnect_pending)
  held ← gets (λ s. s.socket)
  release_socket pending held
  at ← gets (λ s. s.callback)
  modify (λ s. record s { callback = none })
  dismiss self at

-- The body of `send` under the socket lock; `written` says whether the socket took the packet.
abbrev pub send_on : Option ℕ → Bool → Packet → Method (Unit {0})
send_on none written packet = raise (ip_error not_connected)
send_on (some handle) true packet = do
  emit (sent packet)
  modify (λ s. record s { disconnect_probe_flag = false })
send_on (some handle) false packet = do
  handle_disconnect_by_peer Constant.disconnect_reason_error none true
  raise (ip_error not_connected)

unfoldable pub send : Bool → Packet → Method (Unit {0})
unfolding handle_disconnect_by_peer
send written packet = do held ← gets (λ s. s.socket); send_on held written packet

pub data ConnectionState : Type 0 where
  disconnected connected pending : ConnectionState

unfoldable pub get_connection_state : Connection → ConnectionState
get_connection_state s =
    if is_none s.socket
    then (if s.auto_reconnect_pending then pending else disconnected)
    else connected

unfoldable pub set_auto_reconnect : Bool → Method (Unit {0})
set_auto_reconnect auto_reconnect = do
  modify (λ s. record s { auto_reconnect = auto_reconnect })
  when (not auto_reconnect) (modify (λ s. record s { auto_reconnect_allowed = false }))

unfoldable pub get_auto_reconnect : Connection → Bool
get_auto_reconnect s = s.auto_reconnect

-- A timeout in milliseconds.
unfoldable pub set_timeout : ℤ → Method (Unit {0})
set_timeout (negsuc n) = raise value_error
set_timeout (pos n) = modify λ s. record s { timeout = n }

unfoldable pub get_timeout : Connection → ℕ
get_timeout s = s.timeout

-- self.waiter.acquire(): `none` when the call blocks.
unfoldable pub wait : Connection → Option Connection
wait s = elim s.waiter [ zero ↦ none | suc n ↦ some (record s { waiter = n }) ]

unfoldable pub unwait : Connection → Connection
unwait s = record s { waiter = s.waiter + 1 }

unfoldable pub register_callback : ℕ → Option ℕ → Connection → Connection
register_callback id callback s = record s {
  registered_callbacks = update s.registered_callbacks id (some callback);
}
