-- ===== src/Steps/Handshake.antt =====
-- The handshake of authenticate, as a run of steps.
use lufthansa.Base.{
  ℕ, List, [], ◌∷◌, ◌++◌, ◌==◌, ◌+◌, ◌%◌, ◌^◌, Option, Bool-cases, inl, inr, ◌>>=◌, modify, lift,
}
use lufthansa.Wire.{pack_exact}
use lufthansa.Format.{Value, many, u8}
use lufthansa.Format.Unpack.{Returned}
use lufthansa.State.{Connection, World}
use lufthansa.Authentication.{
  authenticate, seed, take_nonce, asks, answers, encode_ascii, Entropy, first_nonce,
  brickd_or_raise, pack_nonce, digest_of, numbers,
}
use lufthansa.Steps.{draws}
use lufthansa.Steps.Run.{IsRun, stays, one, bind-IsRun, then-IsRun, lift-IsRun, pure-IsRun}
use lufthansa.Steps.Calls.{send_request-IsRun}

draws-IsRun :
    (n : Connection → ℕ) → IsRun (modify (λ s. record s { next_authentication_nonce = n s }))
draws-IsRun n = record { run = λ s. one (draws (n s)) }

seed-IsRun : (entropy : Entropy) → IsRun (seed entropy)
unfolding seed
seed-IsRun entropy = record {
  run = λ s. elim (Bool-cases (s.next_authentication_nonce == 0)) [
    | inl first ↦
        simp first
          ((bind-IsRun (lift-IsRun (first_nonce entropy)) λ (n : ℕ). draws-IsRun (λ s. n)).run s)
    | inr chosen ↦ simp chosen stays
  ];
}

take_nonce-IsRun : IsRun take_nonce
unfolding take_nonce
take_nonce-IsRun = record {
  run = λ s.
      (bind-IsRun (lift-IsRun (pack_exact 4 s.next_authentication_nonce)) λ (client_nonce : List ℕ).
          then-IsRun (draws-IsRun (λ t. (t.next_authentication_nonce + 1) % 2 ^ 32))
            (pure-IsRun client_nonce)).run
        s;
}

asks-IsRun : (world : World) (at : ℕ) → IsRun (asks world at)
unfolding asks
asks-IsRun world at = record {
  run = λ s. (send_request-IsRun (world s).0 (world s).1 at 1 [] [] (many 4 u8 ∷ [])).run s;
}

answers-IsRun :
    (world : World) (at : ℕ) (client_nonce digest : Value)
    → IsRun (answers world at client_nonce digest)
unfolding answers
answers-IsRun world at client_nonce digest = record {
  run = λ s.
      (then-IsRun
          (send_request-IsRun (world s).0 (world s).1 at 2 (client_nonce ∷ digest ∷ [])
            (many 4 u8 ∷ many 20 u8 ∷ []) [])
          (pure-IsRun tt)).run
        s;
}

-- What follows the seed, from the Brick Daemon object on.
pub handshake-IsRun :
    (hmac : List ℕ → List ℕ → List ℕ) (world : World) (secret_bytes : List ℕ) (brickd : Option ℕ)
    → IsRun (do
      at ← lift (brickd_or_raise brickd)
      server_nonce ← asks world at
      client_nonce ← take_nonce
      server_bytes ← lift (pack_nonce server_nonce)
      digest ← lift (digest_of (hmac secret_bytes (server_bytes ++ client_nonce)))
      answers world at (numbers client_nonce) digest)
handshake-IsRun hmac world secret_bytes brickd =
    bind-IsRun (lift-IsRun (brickd_or_raise brickd)) λ (at : ℕ).
      bind-IsRun (asks-IsRun world at) λ (server_nonce : Option Returned).
        bind-IsRun take_nonce-IsRun λ (client_nonce : List ℕ).
          bind-IsRun (lift-IsRun (pack_nonce server_nonce)) λ (server_bytes : List ℕ).
            bind-IsRun (lift-IsRun (digest_of (hmac secret_bytes (server_bytes ++ client_nonce))))
              λ (digest : Value). answers-IsRun world at (numbers client_nonce) digest

-- The handshake, with any secret, source of random numbers and peer, is a run of steps.
pub authenticate-IsRun :
    (hmac : List ℕ → List ℕ → List ℕ) (entropy : Entropy) (world : World) (secret : List ℕ)
    → IsRun (authenticate hmac entropy world secret)
unfolding authenticate
authenticate-IsRun hmac entropy world secret =
    bind-IsRun (lift-IsRun (encode_ascii secret)) λ (secret_bytes : List ℕ).
      then-IsRun (seed-IsRun entropy)
        (record { run = λ s. (handshake-IsRun hmac world secret_bytes s.brickd).run s })
