-- ===== src/Receive.antt =====
-- scripts/tinkerforge/ip_connection.py: the receive thread. `receive_loop` cuts the byte stream into
-- packets and `handle_response` routes each of them.
pub mod Route
pub mod Frame
pub mod Rounds
pub mod Deliver
pub mod Chunks
use lufthansa.Base.{
  ℕ, zero, suc, ◌+◌, List, [], ◌∷◌, ◌++◌, Bool, true, false, ◌&&◌, ltb, ◌==◌, is_number, is_none,
  not, if◌then◌else◌, Option, none, some, length, take, drop, Result, ok, err, bind,
  attribute_error, raise, lift, gets, modify, skip, when, pure, ◌>>=◌, ◌>>◌,
}
use lufthansa.Wire.{
  get_uid_from_data, get_length_from_data, get_function_id_from_data, get_sequence_number_from_data,
}
use lufthansa.State.{Connection, Device, Method, Packet, packet, put_callback, set_object}
use lufthansa.State.Constant
use lufthansa.Lifecycle.{handle_disconnect_by_peer}

-- self.callback.queue.put((QUEUE_PACKET, packet)) if the callback is registered
abbrev pub queue_if : Option (Option ℕ) → Packet → Method (Unit {0})
queue_if none p = skip
queue_if (some registered) p = do put_callback (← gets (λ s. s.callback)) (packet p)

-- The device waits for a response of this function with this sequence number.
abbrev pub awaits : Device → ℕ → ℕ → Bool
awaits d function_id sequence_number =
    is_number d.expected_response_function_id function_id
    && is_number d.expected_response_sequence_number sequence_number

-- device.response_queue.put(packet)
abbrev pub put_response : ℕ → Packet → Connection → Connection
put_response at p s =
    set_object s at
      (record (s.objects at) { response_queue = (s.objects at).response_queue ++ (p ∷ []) })

abbrev pub to_device : ℕ → ℕ → Packet → Option ℕ → Method (Unit {0})
to_device function_id sequence_number p none = skip
to_device function_id sequence_number p (some at) = do
  d ← gets (λ s. s.objects at)
  (if sequence_number == 0
      then queue_if (d.registered_callbacks function_id) p
      else when (awaits d function_id sequence_number) (modify (put_response at p)))

-- What follows the test for an enumerate callback.
abbrev pub to_known_device : ℕ → ℕ → Packet → Method (Unit {0})
to_known_device function_id sequence_number p = do
  uid ← lift (get_uid_from_data p)
  at ← gets (λ s. s.devices uid)
  to_device function_id sequence_number p at

unfoldable pub handle_response : Packet → Method (Unit {0})
handle_response p = do
  modify (λ s. record s { disconnect_probe_flag = false })
  function_id ← lift (get_function_id_from_data p)
  sequence_number ← lift (get_sequence_number_from_data p)
  registered ← gets (λ s. s.registered_callbacks Constant.callback_enumerate)
  (if sequence_number == 0 && function_id == Constant.callback_enumerate
      then queue_if registered p
      else to_known_device function_id sequence_number p)

-- The length of the packet at the head of the pending bytes: `none` while its header or its rest is
-- still to come.
unfoldable pub next_length : List ℕ → Result (Option ℕ)
next_length pending_data =
    if ltb (length pending_data) 8
    then ok none
    else bind (get_length_from_data pending_data)
        λ len. ok (if ltb (length pending_data) len then none else some len)

-- The inner loop, with fuel. Its result is what is left in `pending_data`; `none` would mean that
-- the fuel ran out.
unfoldable pub frame : ℕ → List ℕ → Method (Option (List ℕ))
frame zero pending_data = pure none
frame (suc fuel) pending_data = do
  running ← gets (λ s. s.receive_flag)
  found ← lift (if running then next_length pending_data else ok none)
  elim found [
    | none ↦ pure (some pending_data)
    | some len ↦ do handle_response (take len pending_data); frame fuel (drop len pending_data)
  ]

-- A packet takes a byte at least, so this much fuel is enough.
unfoldable pub deliver : List ℕ → Method (Option (List ℕ))
deliver pending_data = frame (suc (length pending_data)) pending_data

-- What `recv` brings: bytes (none at the end of the stream), an error EINTR, or another error.
pub data Received : Type 0 where
  bytes : List ℕ → Received
  interrupted broken : Received

-- One blocking call of `recv`: what the other threads did to the connection in the meantime, and
-- what it brought.
pub record Event : Type 0 where
  pub meanwhile : Connection → Connection
  pub received : Received

-- Goes on with the pending bytes, or leaves the loop.
pub data Outcome : Type 0 where
  again : List ℕ → Outcome
  left : Outcome

abbrev pub pending_after : Option (List ℕ) → Outcome
pending_after none = left
pending_after (some pending_data) = again pending_data

-- The error or the end of the stream is reported, unless the loop has been told to stop.
abbrev pub report : ℕ → ℕ → Bool → Method (Unit {0})
report disconnect_reason socket_id running =
    when running (handle_disconnect_by_peer disconnect_reason (some socket_id) false)

abbrev pub take_in : ℕ → List ℕ → Received → Method Outcome
take_in socket_id pending_data (bytes []) = do
  report Constant.disconnect_reason_shutdown socket_id (← gets (λ s. s.receive_flag))
  pure left
take_in socket_id pending_data (bytes (b ∷ bs)) = do
  rest ← deliver (pending_data ++ (b ∷ bs))
  pure (pending_after rest)
take_in socket_id pending_data interrupted = do
  running ← gets (λ s. s.receive_flag)
  pure (if running then again pending_data else left)
take_in socket_id pending_data broken = do
  report Constant.disconnect_reason_error socket_id (← gets (λ s. s.receive_flag))
  pure left

-- self.socket.recv: `None` has no such method.
abbrev pub reach_recv : Option ℕ → Method (Unit {0})
reach_recv none = raise attribute_error
reach_recv (some handle) = skip

-- The outer loop over the calls of `recv`. When the list ends the thread blocks in the next one.
unfoldable pub receive_loop : ℕ → List ℕ → List Event → Method Outcome
receive_loop socket_id pending_data [] = pure (again pending_data)
receive_loop socket_id pending_data (e ∷ es) = do
  running ← gets (λ s. s.receive_flag)
  elim running [
    | false ↦ pure left
    | true ↦ do
      reach_recv (← gets (λ s. s.socket))
      modify e.meanwhile
      outcome ← take_in socket_id pending_data e.received
      elim outcome [ left ↦ pure left | again rest ↦ receive_loop socket_id rest es ]
  ]
