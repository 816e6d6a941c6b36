-- ===== src/Authentication/Handshake.antt =====
-- The handshake of authenticate.
use lufthansa.Base.{
  subst, ◌∷◌, [], Bool, true, pos, drop, ℕ, ◌+◌, ◌%◌, ◌^◌, ◌<◌, ◌≡◌, ◌≢◌, ◌∙◌, List, ◌++◌, length,
  some, ok, arith, ap, sym,
}
use lufthansa.Wire.{pack_uint}
use lufthansa.Wire.Header.{Reads}
use lufthansa.Format.{Form, Value, many, u8, calcsize}
use lufthansa.Format.Unpack.{single, unpack_payload}
use lufthansa.Device.{get_response_expected}
use lufthansa.Request.{send_request, search_queue, exhausted}
use lufthansa.Request.Sequence.{CounterIsValid}
use lufthansa.Request.Build.{request_well_formed}
use lufthansa.Request.Answer.{read_response_values}
use lufthansa.Request.Kept.{Sent, send_request-Sent, send_request_answered}
use lufthansa.Scripts.Sends.{Writes}
use lufthansa.Authentication.Numbers.{
  IsBytes, numbers-HasType, pack_nonce-numbers, pack_payload-numbers,
}
use lufthansa.State.{Connection, World, Packet, sent}
use lufthansa.Authentication.{Entropy, authenticate, asks, answers, encode_ascii, numbers}
use lufthansa.Authentication.Parts.{
  with_nonce, proof_form, handshake_lem, pack_uint-IsBytes, length-pack_uint, asks-request,
  answers-state, flag-same,
}

-- The two requests of a handshake, in this order, and nothing else that goes out; the second one has
-- these two texts as its arguments. The next call uses this nonce.
abbrev pub Handshakes : ℕ → List ℕ → List ℕ → ℕ → Connection → Connection → Type 0
Handshakes at client_nonce digest next s t =
    (p₁ : Packet) × (p₂ : Packet) × (t.effects ≡ sent p₂ ∷ sent p₁ ∷ s.effects)
    × Reads p₁ (s.objects at).uid (length p₁) 1 (s.next_sequence_number + 1) 0
    × Reads p₂ (s.objects at).uid (length p₂) 2 ((s.next_sequence_number + 1) % 15 + 1) 0
    × (unpack_payload proof_form (drop 8 p₂) ≡ ok (numbers client_nonce ∷ numbers digest ∷ []))
    × (t.next_authentication_nonce ≡ next)

-- What authenticate relies on in the connection: it is open, and its Brick Daemon object is known under
-- its uid, always expects a response to get_authentication_nonce and has no answer in its queue.
pub record IsReady (at handle : ℕ) (expected : Bool) (s : Connection) : Type 0 where
  pub brickd : s.brickd ≡ some at
  pub is_open : s.socket ≡ some handle
  pub counted : CounterIsValid s
  pub uid_fits : (s.objects at).uid < 2 ^ 32
  pub known : s.devices (s.objects at).uid ≡ some at
  pub asked : get_response_expected (s.objects at) (pos 1) ≡ ok true
  pub told : get_response_expected (s.objects at) (pos 2) ≡ ok expected
  pub stale : search_queue 1 (s.next_sequence_number + 1) (s.objects at).response_queue ≡ exhausted

-- The first packet that arrives is the Brick Daemon's answer, without an error, with this nonce.
pub record Gives (uid q : ℕ) (server : List ℕ) (arrivals : List Packet) : Type 0 where
  pub header : List ℕ
  pub later : List Packet
  pub first : arrivals ≡ (header ++ server) ∷ later
  pub eight : length header ≡ 8
  pub four : length server ≡ 4
  pub bytes : IsBytes server
  pub len : ℕ
  pub reads : Reads (header ++ server) uid len 1 q 0

module _ (world : World) (writes : Writes world) (at handle : ℕ) (expected : Bool) (s : Connection)
    (ready : IsReady at handle expected s) where
  asks-Sent :
      (server : List ℕ)
      → Gives (s.objects at).uid (s.next_sequence_number + 1) server (world s).1
      → (p : Packet) × Reads p (s.objects at).uid (length p) 1 (s.next_sequence_number + 1) 0
        × Sent at p
            (record s { next_sequence_number = (s.next_sequence_number + 1) % 15 })
            (asks world at s).1
        × ((asks world at s).0 ≡ ok (some (single (numbers server))))
  unfolding calcsize
  asks-Sent server gives =
      let t = record s { next_sequence_number = (s.next_sequence_number + 1) % 15 } in
      let form : Form = many 4 u8 ∷ [] in
      let same_request : asks world at s
          ≡ send_request true ((gives.header ++ server) ∷ gives.later) at 1 [] [] form s =
        asks-request world at s
        ∙ ap (λ b. send_request b (world s).1 at 1 [] [] form s) (writes s)
        ∙ ap (λ ps. send_request true ps at 1 [] [] form s) gives.first in
      let (p, built, reads, back) =
        request_well_formed at 1 [] [] true s ready.counted ready.uid_fits (omega arith) ready.asked
          tt (omega arith) in
      let went =
        send_request-Sent at 1 handle [] [] form p _ ((gives.header ++ server) ∷ gives.later) s t
          ready.is_open true built in
      let came =
        send_request_answered at 1 handle [] [] form p _ gives.later s t ready.is_open
          (s.objects at).uid gives.len 0 (gives.header ++ server) built (λ e. omega arith)
          ready.known gives.reads ready.stale in
      let read =
        read_response_values (many 4 u8) [] (numbers server ∷ []) gives.header server gives.eight
          (numbers-HasType 4 server (omega arith) gives.four gives.bytes, tt)
          (pack_payload-numbers 4 server gives.four gives.bytes) gives.reads.reads_error_code in
      (
        p,
        reads,
        subst (λ x. Sent at p t x.1) (sym same_request) went,
        ap (λ x. x.0) same_request ∙ came ∙ read,
      )

  answers-Sent :
      (n : ℕ) (digest : List ℕ) (t : Connection)
      → length digest ≡ 20
      → IsBytes digest
      → t.socket ≡ some handle
      → CounterIsValid t
      → (t.objects at).uid ≡ (s.objects at).uid
      → (t.objects at).response_expected ≡ (s.objects at).response_expected
      → let u = (answers world at (numbers (pack_uint 4 n)) (numbers digest) t).1 in
        (p : Packet) × Reads p (s.objects at).uid (length p) 2 (t.next_sequence_number + 1) 0
        × (unpack_payload proof_form (drop 8 p)
            ≡ ok (numbers (pack_uint 4 n) ∷ numbers digest ∷ []))
        × (u.effects ≡ sent p ∷ t.effects)
        × (u.next_authentication_nonce ≡ t.next_authentication_nonce)
  unfolding calcsize
  answers-Sent n digest t twenty small held counted uid flags =
      let args : List Value = numbers (pack_uint 4 n) ∷ numbers digest ∷ [] in
      let (p, built, reads, back) =
        request_well_formed at 2 args proof_form expected t counted
          (subst (λ i. i < 2 ^ 32) (sym uid) ready.uid_fits) (omega arith)
          (flag-same (s.objects at) (t.objects at) 2 flags ∙ ready.told)
          (
            numbers-HasType 4 (pack_uint 4 n) (omega arith) (length-pack_uint 4 n)
                (pack_uint-IsBytes 4 n),
            (numbers-HasType 20 digest (omega arith) twenty small, tt),
          )
          (omega arith) in
      let went =
        send_request-Sent at 2 handle args proof_form [] p _ (world t).1 t _ held expected built in
      let same_request : (answers world at (numbers (pack_uint 4 n)) (numbers digest) t).1
          ≡ (send_request true (world t).1 at 2 args proof_form [] t).1 =
        answers-state world at _ _ t
        ∙ ap (λ b. (send_request b (world t).1 at 2 args proof_form [] t).1) (writes t) in
      (
        p,
        subst (λ i. Reads p i (length p) 2 (t.next_sequence_number + 1) 0) uid reads,
        back,
        ap (λ u. u.effects) same_request ∙ went.1,
        ap (λ u. u.next_authentication_nonce) same_request ∙ went.3,
      )

  -- On an open connection whose socket takes every packet, and whose Brick Daemon object is known under
  -- its 32-bit uid, always expects a response to the first request, has no answer in its queue and gets
  -- as the first packet an answer without an error and with a nonce of four bytes: once a nonce of at
  -- most 32 bits, other than 0, has been chosen, authenticate with an ASCII secret and an HMAC of 20
  -- bytes sends two requests. The first one is get_authentication_nonce, with function id 1. The second
  -- one is authenticate, with function id 2, and its arguments are the client's nonce and the HMAC,
  -- under the secret, of both nonces, the server's first. Whatever comes of it, nothing else goes out,
  -- and the next call uses the next nonce.
  pub authenticate_handshake :
      (hmac : List ℕ → List ℕ → List ℕ) (entropy : Entropy) (secret key server : List ℕ) (n : ℕ)
      → encode_ascii secret ≡ ok key
      → s.next_authentication_nonce ≡ n
      → n ≢ 0
      → n < 2 ^ 32
      → Gives (s.objects at).uid (s.next_sequence_number + 1) server (world s).1
      → length (hmac key (server ++ pack_uint 4 n)) ≡ 20
      → IsBytes (hmac key (server ++ pack_uint 4 n))
      → Handshakes at
          (pack_uint 4 n)
          (hmac key (server ++ pack_uint 4 n))
          ((n + 1) % 2 ^ 32)
          s
          (authenticate hmac entropy world secret s).1
  authenticate_handshake hmac entropy secret key server n ascii chosen nonzero fits gives sized
        small =
      let (p, reads, went, got) = asks-Sent server gives in
      let t = (asks world at s).1 in
      let asked : asks world at s ≡ (ok (some (single (numbers server))), t) = λ i. (got i, t) in
      let v = with_nonce ((n + 1) % 2 ^ 32) t in
      let digest = hmac key (server ++ pack_uint 4 n) in
      let done =
        handshake_lem hmac entropy world secret key server n at _ s t ascii chosen nonzero fits
          ready.brickd asked (pack_nonce-numbers server gives.four gives.bytes) sized in
      let (p', reads', back, effects, nonce) =
        answers-Sent n digest v sized small (went.0 ∙ ready.is_open)
          (subst (λ q. q < 15) (sym went.2) (omega arith)) went.4 went.5 in
      (
        p,
        p',
        ap (λ x. x.1.effects) done ∙ effects ∙ ap (λ es. sent p' ∷ es) went.1,
        reads,
        subst (λ q. Reads p' (s.objects at).uid (length p') 2 (q + 1) 0) went.2 reads',
        back,
        ap (λ x. x.1.next_authentication_nonce) done ∙ nonce,
      )
