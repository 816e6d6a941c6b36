-- ===== src/Tests/Packets.antt =====
-- Runs of the codecs, the receive loop and the requests.
use lufthansa.Base.{
  none, ℕ, ◌≤◌, ◌≡◌, ◌≢◌, refl, List, [], ◌∷◌, ◌++◌, map, true, false, some, length, drop, ok, err,
  pos, arith, All, ◌⊎◌, ip_error, invalid_parameter, not_supported, unknown_error_code,
}
use lufthansa.Base58.{base58decode, base58encode}
use lufthansa.Wire.{
  get_error_code_from_data, get_length_from_data, pack_header, get_function_id_from_data,
  get_sequence_number_from_data, get_uid_from_data, unpack_exact, unpack_uint,
}
use lufthansa.Wire.Header.{Reads, pack_header_fields}
use lufthansa.Format.{u8, u16, u32, one, many, scalar, tuple, int, calcsize}
use lufthansa.Bindings.{fill}
use lufthansa.Device.{blank_device, get_response_expected, initial_flags}
use lufthansa.Base58.RoundTrip.{base58decode-base58encode}
use lufthansa.Wire.{pack_uint, pack_exact}
use lufthansa.Format.Pack.{pack_payload, pack_field, pack_scalar, pack_number, pack_int}
use lufthansa.Format.Unpack.{deserialize_data, unpack_payload, returned}
use lufthansa.Format.RoundTrip.{deserialize_data-pack}
use lufthansa.State.{Packet}
use lufthansa.Receive.{handle_response, again, receive_loop, deliver}
use lufthansa.Receive.Chunks.{quiet, outcome_of, receive_loop_packets, receive_loop_chunks}
use lufthansa.Receive.Deliver.{deliver_total, IsPacket, concat, handle_all}
use lufthansa.Request.{
  exchange, await_response, build_request, read_response, search_queue, get_next_sequence_number,
}
use lufthansa.Request.Build.{request_well_formed}
use lufthansa.Request.Await.{
  exchange_resets, Answers, await_response-Answers, await_response_returns,
}
use lufthansa.Request.Answer.{read_response_values, read_response_errors}
use lufthansa.Request.Sequence.{
  CounterIsValid, after_calls, sequence_number_range, sequence_numbers_differ,
}
use lufthansa.Tests.Fixture.{response, frame_rendered, response-Reads, online, cons_ne, suc_ne}

-- Two bytes of the next packet are still to come.
abbrev beginning : List ℕ
beginning = 1 ∷ 0 ∷ 0 ∷ 0 ∷ 12 ∷ 8 ∷ 24 ∷ 0 ∷ 128 ∷ 26 ∷ []

abbrev chunks : List (List ℕ)
chunks = (1 ∷ 0 ∷ 0 ∷ []) ∷ (0 ∷ 12 ∷ 8 ∷ 24 ∷ 0 ∷ 128 ∷ 26 ∷ 6 ∷ 0 ∷ beginning) ∷ []

chunks-nonempty : All (λ c. c ≢ []) chunks
chunks-nonempty = (cons_ne 1 _, (cons_ne 0 _, tt))

response-IsPacket : IsPacket response
unfolding get_length_from_data unpack_exact unpack_uint
response-IsPacket = (omega arith, refl)

response-handled : (handle_all (response ∷ []) online).0 ≡ ok tt
unfolding handle_response get_uid_from_data get_sequence_number_from_data get_function_id_from_data
    unpack_exact unpack_uint
response-handled = refl

receive_loop_packets_example :
    receive_loop 1 [] (map quiet chunks) online
    ≡ (ok (again beginning), (handle_all (response ∷ []) online).1)
receive_loop_packets_example =
    receive_loop_packets 1 7 chunks (response ∷ []) beginning (6 ∷ 0 ∷ []) online chunks-nonempty
      (response-IsPacket, tt) refl (cons_ne 6 _) response-IsPacket refl refl response-handled

receive_loop_chunks_example :
    receive_loop 1 [] (map quiet chunks) online ≡ outcome_of (deliver (concat chunks) online)
receive_loop_chunks_example = receive_loop_chunks 1 7 chunks online chunks-nonempty refl refl

request_well_formed_example :
    (request : Packet) × (build_request 0 1 (scalar (int (pos 3)) ∷ []) (one u16 ∷ []) online
      ≡ (ok (request, false, 1), record online { next_sequence_number = 1 }))
    × Reads request 1 (length request) 1 1 0
    × (unpack_payload (one u16 ∷ []) (drop 8 request) ≡ ok (scalar (int (pos 3)) ∷ []))
unfolding calcsize fill blank_device get_response_expected initial_flags
request_well_formed_example =
    request_well_formed 0 1 (scalar (int (pos 3)) ∷ []) (one u16 ∷ []) false online (omega arith)
      (omega arith) (omega arith) refl (omega arith, tt) (omega arith)

await_response-Answers_example :
    Answers 8 1 (await_response 0 8 1 (frame_rendered ∷ response ∷ []) online)
await_response-Answers_example =
    await_response-Answers 0 8 1 (frame_rendered ∷ response ∷ []) online

await_response_returns_example :
    (await_response 0 8 1 (response ∷ frame_rendered ∷ []) online).0 ≡ ok response
unfolding search_queue fill blank_device
await_response_returns_example =
    await_response_returns 0 1 12 8 1 0 response (frame_rendered ∷ []) online response-Reads
      (suc_ne 0) refl refl refl

deserialize_data-pack_example :
    (bs : List ℕ) × (pack_payload
        (one u16 ∷ many 2 u8 ∷ [])
        (scalar (int (pos 300)) ∷ tuple (int (pos 1) ∷ int (pos 255) ∷ []) ∷ [])
      ≡ ok bs)
    × (length bs ≡ calcsize (one u16 ∷ many 2 u8 ∷ []))
    × (deserialize_data (bs ++ (9 ∷ [])) (one u16 ∷ many 2 u8 ∷ [])
        ≡ ok (returned (scalar (int (pos 300)) ∷ tuple (int (pos 1) ∷ int (pos 255) ∷ []) ∷ [])))
deserialize_data-pack_example =
    deserialize_data-pack (one u16) (many 2 u8 ∷ [])
      (scalar (int (pos 300)) ∷ tuple (int (pos 1) ∷ int (pos 255) ∷ []) ∷ []) (9 ∷ [])
      (omega arith, ((omega arith, refl, (omega arith, (omega arith, tt))), tt))

base58decode-base58encode_example : base58decode (base58encode 123456) ≡ ok 123456
base58decode-base58encode_example = base58decode-base58encode 123456

pack_header_fields_example :
    (h : List ℕ) × (pack_header 1 9 8 15 true ≡ ok h)
    × (length h ≡ 8)
    × Reads (h ++ (5 ∷ [])) 1 9 8 15 0
pack_header_fields_example =
    pack_header_fields 1 9 8 15 true (5 ∷ []) (omega arith) (omega arith) (omega arith)
      (omega arith)

sequence_numbers_differ_example :
    (get_next_sequence_number (after_calls 2 online)).0
    ≢ (get_next_sequence_number (after_calls 16 online)).0
sequence_numbers_differ_example =
    sequence_numbers_differ 2 16 online (omega arith) (omega arith) (omega arith)

sequence_number_range_example :
    (n : ℕ) × ((get_next_sequence_number online).0 ≡ ok n)
    × (1 ≤ n)
    × (n ≤ 15)
    × CounterIsValid (get_next_sequence_number online).1
sequence_number_range_example = sequence_number_range online (omega arith)

-- A response that says that the function is not supported.
abbrev refused_response : Packet
refused_response = 1 ∷ 0 ∷ 0 ∷ 0 ∷ 12 ∷ 8 ∷ 24 ∷ 128 ∷ 0 ∷ 0 ∷ 0 ∷ 0 ∷ []

abbrev refused_code : ℕ
refused_code = 2

read_response_errors_example :
    ((refused_code ≡ 1)
      × (read_response refused_response (one u32 ∷ []) ≡ err (ip_error invalid_parameter)))
    ⊎ ((refused_code ≡ 2)
        × (read_response refused_response (one u32 ∷ []) ≡ err (ip_error not_supported)))
    ⊎ ((refused_code ≢ 1)
        × (refused_code ≢ 2)
        × (read_response refused_response (one u32 ∷ []) ≡ err (ip_error unknown_error_code)))
unfolding get_error_code_from_data unpack_exact unpack_uint
read_response_errors_example =
    read_response_errors refused_response (one u32 ∷ []) refused_code refl (suc_ne 1)

read_response_values_example :
    read_response ((1 ∷ 0 ∷ 0 ∷ 0 ∷ 12 ∷ 8 ∷ 24 ∷ 0 ∷ []) ++ (128 ∷ 26 ∷ 6 ∷ 0 ∷ [])) (one u32 ∷ [])
    ≡ ok (some (returned (scalar (int (pos 400000)) ∷ [])))
unfolding get_error_code_from_data unpack_exact unpack_uint pack_payload pack_field pack_scalar
    pack_number pack_int pack_uint pack_exact
read_response_values_example =
    read_response_values (one u32) [] (scalar (int (pos 400000)) ∷ [])
      (1 ∷ 0 ∷ 0 ∷ 0 ∷ 12 ∷ 8 ∷ 24 ∷ 0 ∷ []) (128 ∷ 26 ∷ 6 ∷ 0 ∷ []) refl (omega arith, tt) refl
      refl

-- The answer never comes.
exchange_resets_example :
    let d = (exchange 0 8 1 response true (frame_rendered ∷ []) online).1.objects 0 in
    (d.expected_response_function_id ≡ none) × (d.expected_response_sequence_number ≡ none)
exchange_resets_example = exchange_resets 0 8 1 response true (frame_rendered ∷ []) online

-- A length byte of 0.
deliver_total_example : (deliver (1 ∷ 0 ∷ 0 ∷ 0 ∷ 0 ∷ 8 ∷ 24 ∷ 0 ∷ []) online).0 ≢ ok none
deliver_total_example = deliver_total (1 ∷ 0 ∷ 0 ∷ 0 ∷ 0 ∷ 8 ∷ 24 ∷ 0 ∷ []) online
