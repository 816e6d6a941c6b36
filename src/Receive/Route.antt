-- ===== src/Receive/Route.antt =====
-- Where a packet goes.
use lufthansa.Base.{
  ℕ, update, ◌++◌, ◌∷◌, ◌⊎◌, ◌&&◌, is_number, true, inl, inr, Option, ◌≡◌, ◌≢◌, refl, [], false,
  if◌then◌else◌, none, some, arith, is_none, ok, err, struct_error,
}
use lufthansa.Wire.Header.{Reads}
use lufthansa.Wire.{get_function_id_from_data, unpack_exact}
use lufthansa.State.{Connection, Device, Packet, packet, enqueue}
use lufthansa.State.Constant
use lufthansa.Receive.{handle_response, awaits, put_response}

-- Every packet puts off the probe.
abbrev pub heard : Connection → Connection
heard s = record s { disconnect_probe_flag = false }

-- The device waits for a response of this function with this sequence number, and it gets the packet
-- behind its other responses; or it does not wait for it, and the packet is dropped. Nothing else
-- changes but the probe flag.
abbrev pub Routes : Packet → ℕ → ℕ → ℕ → Connection → Type 0
Routes p at function_id sequence_number s =
    let d = s.objects at in
    ((d.expected_response_function_id ≡ some function_id)
      × (d.expected_response_sequence_number ≡ some sequence_number)
      × (handle_response p s ≡ (
        ok tt,
        record (heard s) {
          objects =
              update s.objects at (record d { response_queue = d.response_queue ++ (p ∷ []) });
        },
      )))
    ⊎ (¬ (
          (d.expected_response_function_id ≡ some function_id)
          × (d.expected_response_sequence_number ≡ some sequence_number))
        × (handle_response p s ≡ (ok tt, heard s)))

awaits-cases :
    (d : Device) (f q : ℕ)
    → ((awaits d f q ≡ true)
        × (d.expected_response_function_id ≡ some f)
        × (d.expected_response_sequence_number ≡ some q))
      ⊎ ((awaits d f q ≡ false)
          × ¬ (
              (d.expected_response_function_id ≡ some f)
              × (d.expected_response_sequence_number ≡ some q)))
awaits-cases d f q = go d.expected_response_function_id d.expected_response_sequence_number
  where
    go :
        (a b : Option ℕ)
        → ((is_number a f && is_number b q ≡ true) × (a ≡ some f) × (b ≡ some q))
          ⊎ ((is_number a f && is_number b q ≡ false) × ¬ ((a ≡ some f) × (b ≡ some q)))
    go a b = ground arith

module _ (p : Packet) (uid len function_id sequence_number error_code : ℕ) (s : Connection)
    (reads : Reads p uid len function_id sequence_number error_code) where
  routed :
      (at : ℕ)
      → sequence_number ≢ 0
      → s.devices uid ≡ some at
      → handle_response p s ≡ (
        ok tt,
        if awaits (s.objects at) function_id sequence_number
            then put_response at p (heard s)
            else heard s,
      )
  unfolding handle_response
  routed at response known =
      ground (arith, reads.reads_uid, reads.reads_function_id, reads.reads_sequence_number)

  -- A response that a device waits for is put behind the responses in its queue.
  pub response_queued :
      (at : ℕ)
      → sequence_number ≢ 0
      → s.devices uid ≡ some at
      → awaits (s.objects at) function_id sequence_number ≡ true
      → handle_response p s ≡ (ok tt, put_response at p (heard s))
  response_queued at response known waits = rw waits at (routed at response known)

  -- A response, a packet whose sequence number is not 0, for a uid that has a device: either the
  -- device waits for a response with this function id and this sequence number, and the packet is put
  -- behind the others in its queue; or it does not, and the packet is dropped. Nothing else changes
  -- but the probe flag.
  pub response_routed :
      (at : ℕ)
      → sequence_number ≢ 0
      → s.devices uid ≡ some at
      → Routes p at function_id sequence_number s
  response_routed at response known =
      elim (awaits-cases (s.objects at) function_id sequence_number) [
        | inl (waits, f, q) ↦ inl (f, q, response_queued at response known waits)
        | inr (ignores, other) ↦ inr (other, rw ignores at (routed at response known))
      ]

  -- A response for a uid that no device object has is dropped.
  pub unknown_dropped :
      sequence_number ≢ 0 → s.devices uid ≡ none → handle_response p s ≡ (ok tt, heard s)
  unfolding handle_response
  unknown_dropped response unknown =
      ground (arith, reads.reads_uid, reads.reads_function_id, reads.reads_sequence_number)

  -- A packet with sequence number 0 that is not an enumeration is a callback. With its device
  -- known and a callback processor there, it is put behind the items of the callback queue if the
  -- device has that callback registered, and else dropped; it never reaches the response queue.
  pub callback_routed :
      (at context : ℕ)
      → sequence_number ≡ 0
      → function_id ≢ Constant.callback_enumerate
      → s.devices uid ≡ some at
      → s.callback ≡ some context
      → handle_response p s ≡ (
        ok tt,
        if is_none ((s.objects at).registered_callbacks function_id)
            then heard s
            else enqueue (heard s) context (packet p),
      )
  unfolding handle_response
  callback_routed at context callback other known running =
      ground (arith, reads.reads_uid, reads.reads_function_id, reads.reads_sequence_number)

-- An empty packet, which a length byte of 0 asks for, raises.
pub handle_response-nil : (s : Connection) → (handle_response [] s).0 ≡ err struct_error
unfolding handle_response get_function_id_from_data unpack_exact
handle_response-nil s = refl

-- Handling a packet keeps the socket.
pub socket-handle_response :
    (p : Packet) (s : Connection) → (handle_response p s).1.socket ≡ s.socket
unfolding handle_response
socket-handle_response p s = ground arith

-- Handling a packet never stops the receive loop.
pub receive_flag-handle_response :
    (p : Packet) (s : Connection) → (handle_response p s).1.receive_flag ≡ s.receive_flag
unfolding handle_response
receive_flag-handle_response p s = ground arith
