-- ===== src/Authentication.antt =====
-- scripts/tinkerforge/ip_connection.py: authenticate. HMAC-SHA1 belongs to Python's library: it is a
-- parameter, a function of the key and the message. So are the random bytes and the clock.
pub mod Nonce
pub mod Numbers
pub mod Parts
pub mod Handshake
use lufthansa.Base.{
  ℕ, ◌+◌, ◌*◌, ◌/◌, ◌%◌, ◌^◌, bit_and, bit_or, List, [], ◌∷◌, ◌++◌, map, Bool, true, false, ltb,
  ◌==◌, if◌then◌else◌, Option, none, some, length, pos, Result, ok, err, bind, unicode_error,
  attribute_error, type_error, struct_error, lift, gets, modify, when, pure, ◌>>=◌, ◌>>◌,
}
use lufthansa.Wire.{pack_exact, unpack_exact, unpack_uint}
use lufthansa.Format.{u8, many, Scalar, int, Value, tuple}
use lufthansa.Format.Pack.{pack_field}
use lufthansa.Format.Unpack.{Returned, single, several}
use lufthansa.State.{Connection, Method, World}
use lufthansa.Maintenance.{get_authentication_nonce, authenticate_daemon}

-- secret.encode('ascii')
abbrev pub encode_ascii : List ℕ → Result (List ℕ)
encode_ascii [] = ok []
encode_ascii (c ∷ cs) =
    let rest = encode_ascii cs in
    if ltb c 128 then bind rest (λ bs. ok (c ∷ bs)) else err unicode_error

-- os.urandom(4), or without such a source the clock in seconds and microseconds, and the process id.
pub data Entropy : Type 0 where
  random : List ℕ → Entropy
  clock : ℕ → ℕ → ℕ → Entropy

unfoldable pub first_nonce : Entropy → Result ℕ
first_nonce (random bytes) = unpack_exact 4 bytes
first_nonce (clock seconds subseconds process_id) =
    ok (bit_and (bit_or (seconds * 2 ^ 26) (seconds / 2 ^ 6)) 0xFFFFFFFF + subseconds + process_id)

-- if self.next_authentication_nonce == 0: ...
unfoldable pub seed : Entropy → Method (Unit {0})
unfolding first_nonce
seed entropy = do
  nonce ← gets (λ s. s.next_authentication_nonce)
  (if nonce == 0
      then (lift (first_nonce entropy) >>= λ n.
          modify (λ s. record s { next_authentication_nonce = n }))
      else pure tt)

-- struct.pack('<4B', *server_nonce), for what get_authentication_nonce returned
unfoldable pub pack_nonce : Option Returned → Result (List ℕ)
unfolding pack_field
pack_nonce (some (single (tuple xs))) = pack_field (many 4 u8) (tuple xs)
pack_nonce _ = err type_error

-- The bytes as a tuple of numbers.
abbrev pub numbers : List ℕ → Value
numbers bs = tuple (map (λ b. int (pos b)) bs)

-- struct.unpack('<20B', h.digest())
abbrev pub digest_of : List ℕ → Result Value
digest_of bs = if length bs == 20 then ok (numbers bs) else err struct_error

abbrev pub brickd_or_raise : Option ℕ → Result ℕ
brickd_or_raise none = err attribute_error
brickd_or_raise (some at) = ok at

-- client_nonce, and the nonce of the next call
unfoldable pub take_nonce : Method (List ℕ)
unfolding pack_exact
take_nonce = do
  nonce ← gets (λ s. s.next_authentication_nonce)
  client_nonce ← lift (pack_exact 4 nonce)
  modify (λ s. record s { next_authentication_nonce = (s.next_authentication_nonce + 1) % 2 ^ 32 })
  pure client_nonce

-- A request in its world.
unfoldable pub asks : World → ℕ → Method (Option Returned)
unfolding get_authentication_nonce
asks world at s = get_authentication_nonce (world s).0 (world s).1 at s

unfoldable pub answers : World → ℕ → Value → Value → Method (Unit {0})
unfolding authenticate_daemon
answers world at client_nonce digest s =
    authenticate_daemon (world s).0 (world s).1 at client_nonce digest s

unfoldable pub authenticate :
    (List ℕ → List ℕ → List ℕ) → Entropy → World → List ℕ → Method (Unit {0})
authenticate hmac entropy world secret = do
  secret_bytes ← lift (encode_ascii secret)
  seed entropy
  brickd ← gets (λ s. s.brickd)
  at ← lift (brickd_or_raise brickd)
  server_nonce ← asks world at
  client_nonce ← take_nonce
  server_bytes ← lift (pack_nonce server_nonce)
  digest ← lift (digest_of (hmac secret_bytes (server_bytes ++ client_nonce)))
  answers world at (numbers client_nonce) digest
