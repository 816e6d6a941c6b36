-- ===== src/Request/Build.antt =====
-- The packet that `send_request` puts on the wire.
use lufthansa.Base.{
  ℕ, ◌+◌, ◌%◌, ◌^◌, ◌<◌, ◌≡◌, List, [], ◌++◌, Bool, length, drop, drop-append, append-nil, subst,
  length-append, arith, ok, pos,
}
use lufthansa.Wire.Header.{Reads, pack_header_fields}
use lufthansa.Format.{Form, Value, calcsize}
use lufthansa.Format.Unpack.{unpack_payload}
use lufthansa.Format.Typing.{HasTypes}
use lufthansa.Format.RoundTrip.{payload_roundtrip}
use lufthansa.State.{Connection, Packet}
use lufthansa.Device.{get_response_expected}
use lufthansa.Request.{build_request}
use lufthansa.Request.Sequence.{CounterIsValid}

-- For a device with a 32-bit uid, a function id that its flags know and arguments of the format's
-- types that fit into a packet, building the request succeeds. The accessors read the device's uid,
-- the packet's own length, the function id, the next sequence number and no error from it, and its
-- payload unpacks to the arguments. Only the sequence counter of the connection changes.
pub request_well_formed :
    (at function_id : ℕ) (args : List Value) (form : Form) (expected : Bool) (s : Connection)
    → CounterIsValid s
    → (s.objects at).uid < 2 ^ 32
    → function_id < 256
    → get_response_expected (s.objects at) (pos function_id) ≡ ok expected
    → HasTypes form args
    → 8 + calcsize form < 256
    → (request : Packet) × (build_request at function_id args form s ≡ (
      ok (request, expected, s.next_sequence_number + 1),
      record s { next_sequence_number = (s.next_sequence_number + 1) % 15 },
    ))
      × Reads request (s.objects at).uid (length request) function_id (s.next_sequence_number + 1) 0
      × (unpack_payload form (drop 8 request) ≡ ok args)
unfolding build_request
request_well_formed at function_id args form expected s valid uid_fits id_fits flag typed fits =
    let uid = (s.objects at).uid in
    let number = s.next_sequence_number + 1 in
    let (payload, packed, sized, back) = payload_roundtrip form args [] typed in
    let (h, made, eight, reads) =
      pack_header_fields uid (8 + calcsize form) function_id number expected payload uid_fits fits
        id_fits (omega arith) in
    (
      h ++ payload,
      rw (flag, made, packed),
      subst (λ n. Reads (h ++ payload) uid n function_id number 0)
          (omega (arith, length-append h payload)) reads,
      subst (λ n. unpack_payload form (drop n (h ++ payload)) ≡ ok args) eight
          (rw drop-append (rw append-nil at back)),
    )
