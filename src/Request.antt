-- ===== src/Request.antt =====
-- scripts/tinkerforge/ip_connection.py: `get_next_sequence_number`, `create_packet_header`,
-- `send_request`, `enumerate` and `disconnect_probe_loop`. What the peer answers while a request
-- waits is an argument: the packets that the receive thread gets, each within the timeout of the one
-- before, and nothing after the last.
pub mod Sequence
pub mod Build
pub mod Await
pub mod Answer
pub mod Kept
use lufthansa.Base.{
  Exception, ℕ, zero, suc, ◌+◌, ◌%◌, List, [], ◌∷◌, ◌++◌, Bool, true, false, ◌&&◌, ◌==◌,
  if◌then◌else◌, is_none, not, Option, none, some, drop, pos, Result, ok, err, bind, ip_error,
  ErrorCode, timeout, invalid_parameter, not_supported, unknown_error_code, attribute_error, raise,
  lift, gets, modify, pure, finally, when, ◌>>=◌, ◌>>◌,
}
use lufthansa.Wire.{
  pack_header, get_function_id_from_data, get_sequence_number_from_data, get_error_code_from_data,
}
use lufthansa.Format.{Form, Value, calcsize}
use lufthansa.Format.Pack.{pack_payload}
use lufthansa.Format.Unpack.{deserialize_data, Returned}
use lufthansa.State.{Connection, Device, Method, Packet, set_object, emit, sent}
use lufthansa.State.Constant
use lufthansa.Device.{get_response_expected}
use lufthansa.Lifecycle.{send, handle_disconnect_by_peer}
use lufthansa.Receive.{handle_response}

unfoldable pub get_next_sequence_number : Method ℕ
get_next_sequence_number = do
  next ← gets (λ s. s.next_sequence_number)
  modify (λ s. record s { next_sequence_number = (next + 1) % 15 })
  pure (next + 1)

-- The uid and the response bit; a broadcast has no device.
abbrev pub addressee : Option ℕ → ℕ → Method (ℕ × Bool)
addressee none function_id = pure (Constant.broadcast_uid, false)
addressee (some at) function_id = do
  d ← gets (λ s. s.objects at)
  expected ← lift (get_response_expected d (pos function_id))
  pure (d.uid, expected)

unfoldable pub create_packet_header : Option ℕ → ℕ → ℕ → Method (Packet × Bool × ℕ)
unfolding get_next_sequence_number
create_packet_header device len function_id = do
  sequence_number ← get_next_sequence_number
  to ← addressee device function_id
  header ← lift (pack_header to.0 len function_id sequence_number to.1)
  pure (header, to.1, sequence_number)

-- The part of `send_request` that builds the packet.
unfoldable pub build_request : ℕ → ℕ → List Value → Form → Method (Packet × Bool × ℕ)
unfolding create_packet_header
build_request at function_id args form = do
  (header, response_expected, sequence_number) ←
      create_packet_header (some at) (8 + calcsize form) function_id
  payload ← lift (pack_payload form args)
  pure (header ++ payload, response_expected, sequence_number)

-- The response that has been waited for, by its function id and its sequence number.
abbrev pub is_answer : ℕ → ℕ → Packet → Result Bool
is_answer function_id sequence_number response = bind (get_function_id_from_data response) λ f.
    bind (get_sequence_number_from_data response) λ q. ok (function_id == f && sequence_number == q)

-- What taking responses from the queue has come to: an answer and what stands behind it, the queue
-- has been emptied, or reading a response raised.
pub data Search : Type 0 where
  answered : Packet → List Packet → Search
  exhausted : Search
  unreadable : Exception → List Packet → Search

-- The response that has been taken, what stands behind it, and what comes of searching that.
abbrev pub judge : Result Bool → Packet → List Packet → Search → Search
judge (ok true) p ps rest = answered p ps
judge (ok false) p ps rest = rest
judge (err e) p ps rest = unreadable e ps

-- The loop over the responses that are already there.
unfoldable pub search_queue : ℕ → ℕ → List Packet → Search
search_queue function_id sequence_number [] = exhausted
search_queue function_id sequence_number (p ∷ ps) =
    judge (is_answer function_id sequence_number p) p ps
      (search_queue function_id sequence_number ps)

abbrev pub set_queue : ℕ → List Packet → Connection → Connection
set_queue at ps s = set_object s at (record (s.objects at) { response_queue = ps })

-- Takes responses from the queue up to the answer, or all of them.
unfoldable pub poll : ℕ → ℕ → ℕ → Method (Option Packet)
unfolding search_queue
poll at function_id sequence_number = do
  found ← gets (λ s. search_queue function_id sequence_number (s.objects at).response_queue)
  elim found [
    | answered p rest ↦ do modify (set_queue at rest); pure (some p)
    | exhausted ↦ do modify (set_queue at []); pure none
    | unreadable e rest ↦ do modify (set_queue at rest); raise e
  ]

-- Nothing more arrives.
unfoldable pub last_poll : ℕ → ℕ → ℕ → Method Packet
unfolding poll
last_poll at function_id sequence_number = do
  found ← poll at function_id sequence_number
  elim found [ some p ↦ pure p | none ↦ raise (ip_error timeout) ]

-- `while True: response = device.response_queue.get(True, self.timeout) ...`. While the queue is
-- empty the receive thread handles the next packet. If that raises, the thread is gone and nothing
-- more arrives.
unfoldable pub await_response : ℕ → ℕ → ℕ → List Packet → Method Packet
unfolding last_poll
await_response at function_id sequence_number [] = last_poll at function_id sequence_number
await_response at function_id sequence_number (p ∷ ps) = do
  found ← poll at function_id sequence_number
  elim found [
    | some r ↦ pure r
    | none ↦ λ s.
        let (r, s') = handle_response p s in
        elim r [
          | ok _ ↦ await_response at function_id sequence_number ps s'
          | err _ ↦ last_poll at function_id sequence_number s'
        ]
  ]

abbrev pub expect : ℕ → Option ℕ → Option ℕ → Connection → Connection
expect at function_id sequence_number s = set_object s at (record (s.objects at) {
  expected_response_function_id = function_id;
  expected_response_sequence_number = sequence_number;
})

-- The part of `send_request` under the device's request lock.
unfoldable pub exchange : ℕ → ℕ → ℕ → Packet → Bool → List Packet → Method Packet
unfolding await_response
exchange at function_id sequence_number request written arrivals = do
  modify (expect at (some function_id) (some sequence_number))
  finally (send written request >> await_response at function_id sequence_number arrivals)
      (expect at none none)

unfoldable pub check_error_code : ℕ → Result (Unit {0})
check_error_code error_code =
    if error_code == 0
    then ok tt
    else if error_code == 1
    then err (ip_error invalid_parameter)
    else if error_code == 2
    then err (ip_error not_supported)
    else err (ip_error unknown_error_code)

-- if len(form_ret) > 0: return self.deserialize_data(response[8:], form_ret)
abbrev pub result_of : Packet → Form → Result (Option Returned)
result_of response [] = ok none
result_of response (t ∷ ts) = bind (deserialize_data (drop 8 response) (t ∷ ts)) λ r. ok (some r)

unfoldable pub read_response : Packet → Form → Result (Option Returned)
unfolding check_error_code
read_response response form_ret =
    bind (get_error_code_from_data response)
      λ error_code. bind (check_error_code error_code) λ _. result_of response form_ret

-- The request with its format, the format of its result, and what the environment does.
unfoldable pub send_request :
    Bool → List Packet → ℕ → ℕ → List Value → Form → Form → Method (Option Returned)
unfolding build_request exchange read_response
send_request written arrivals at function_id args form form_ret = do
  (request, response_expected, sequence_number) ← build_request at function_id args form
  elim response_expected [
    | true ↦ do
      response ← exchange at function_id sequence_number request written arrivals
      lift (read_response response form_ret)
    | false ↦ do send written request; pure none
  ]

unfoldable pub enumerate : Bool → Method (Unit {0})
unfolding create_packet_header
enumerate written = do
  (request, response_expected, sequence_number) ←
      create_packet_header none 8 Constant.function_enumerate
  send written request

-- with self.socket_send_lock: self.socket.send(request), and the handler of its error. The result
-- says whether the loop goes on.
abbrev pub send_probe : Option ℕ → Bool → Packet → Method Bool
send_probe none written request = raise attribute_error
send_probe (some handle) true request = do emit (sent request); pure true
send_probe (some handle) false request = do
  socket_id ← gets (λ s. s.socket_id)
  handle_disconnect_by_peer Constant.disconnect_reason_error (some socket_id) false
  pure false

-- One expiry of the probe timer: a probe is sent only if nothing was sent or received since the
-- last expiry.
unfoldable pub probe : Bool → Packet → Method Bool
probe written request = do
  due ← gets (λ s. s.disconnect_probe_flag)
  held ← gets (λ s. s.socket)
  elim due [
    | false ↦ do modify (λ s. record s { disconnect_probe_flag = true }); pure true
    | true ↦ send_probe held written request
  ]

-- An expiry of the probe timer: what the other threads did in the time before it, and whether the
-- socket takes the probe.
pub record Expiry : Type 0 where
  pub meanwhile : Connection → Connection
  pub written : Bool

-- The loop over the expiries, until a probe fails; the list ends when the queue brings the message
-- to stop.
unfoldable pub probe_rounds : Packet → List Expiry → Method (Unit {0})
unfolding probe
probe_rounds request [] = pure tt
probe_rounds request (e ∷ later) = do
  modify e.meanwhile
  on ← probe e.written request
  elim on [ true ↦ probe_rounds request later | false ↦ pure tt ]

unfoldable pub disconnect_probe_loop : List Expiry → Method (Unit {0})
unfolding create_packet_header probe_rounds
disconnect_probe_loop expiries = do
  (request, response_expected, sequence_number) ←
      create_packet_header none 8 Constant.function_disconnect_probe
  probe_rounds request expiries
