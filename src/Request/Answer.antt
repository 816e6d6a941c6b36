-- ===== src/Request/Answer.antt =====
-- What a caller of `send_request` gets.
use lufthansa.Base.{
  ℕ, ◌≡◌, ◌≢◌, ◌⊎◌, subst, List, [], ◌∷◌, ◌++◌, some, drop, length, drop-append, append-nil, arith,
  ok, err, ip_error, invalid_parameter, not_supported, unknown_error_code,
}
use lufthansa.Wire.{get_error_code_from_data}
use lufthansa.Format.{Token, Form, Value}
use lufthansa.Format.Unpack.{returned, deserialize_data}
use lufthansa.Format.Typing.{HasTypes}
use lufthansa.Format.Pack.{pack_payload}
use lufthansa.Format.RoundTrip.{deserialize_data-pack}
use lufthansa.State.{Packet}
use lufthansa.Request.{read_response}

-- A response of an eight byte header without an error code and a payload that was packed from
-- values of the result's format gives these values back.
pub read_response_values :
    (t : Token) (ts : Form) (vs : List Value) (header payload : List ℕ)
    → length header ≡ 8
    → HasTypes (t ∷ ts) vs
    → pack_payload (t ∷ ts) vs ≡ ok payload
    → get_error_code_from_data (header ++ payload) ≡ ok 0
    → read_response (header ++ payload) (t ∷ ts) ≡ ok (some (returned vs))
unfolding read_response
read_response_values t ts vs header payload eight typed packed fine =
    let (payload', packed', sized, back) = deserialize_data-pack t ts vs [] typed in
    let same : payload' ≡ payload = cc (packed, packed') in
    let behind : drop 8 (header ++ payload) ≡ payload =
      subst (λ n. drop n (header ++ payload) ≡ payload) eight (drop-append header payload) in
    let reads : deserialize_data payload (t ∷ ts) ≡ ok (returned vs) =
      rw (append-nil, same) at back in
    rw (fine, behind, reads)

-- A response with an error code raises the error of that code, whatever else it holds: 1 is an
-- invalid parameter, 2 an unsupported function, and any other an unknown error.
pub read_response_errors :
    (response : Packet) (form_ret : Form) (code : ℕ)
    → get_error_code_from_data response ≡ ok code
    → code ≢ 0
    → ((code ≡ 1) × (read_response response form_ret ≡ err (ip_error invalid_parameter)))
      ⊎ ((code ≡ 2) × (read_response response form_ret ≡ err (ip_error not_supported)))
      ⊎ ((code ≢ 1)
          × (code ≢ 2)
          × (read_response response form_ret ≡ err (ip_error unknown_error_code)))
unfolding read_response
read_response_errors response form_ret code known bad = ground arith
