-- ===== src/Authentication/Parts.antt =====
-- The parts of authenticate: the choice of the nonces, the two calls and what they are put together to.
use lufthansa.Base.{
  refl, zero, suc, ◌/◌, ◌∷◌, [], Result-cases, inl, inr, pos, ℕ, ◌+◌, ◌%◌, ◌^◌, ◌<◌, ◌≡◌, ◌≢◌, ◌∙◌,
  List, ◌++◌, length, Option, some, ok, Result, arith, ap, sym,
}
use lufthansa.Wire.{pack_uint, pack_exact}
use lufthansa.Format.{Form, Value, many, u8}
use lufthansa.Device.{get_response_expected}
use lufthansa.Request.{send_request}
use lufthansa.Authentication.Numbers.{IsBytes}
use lufthansa.Format.Unpack.{Returned}
use lufthansa.State.{Connection, World, Device}
use lufthansa.Authentication.{
  Entropy, authenticate, asks, answers, pack_nonce, encode_ascii, numbers, seed, take_nonce,
}
use lufthansa.Authentication.Nonce.{asks-SameNonce}

-- The connection after the server's nonce has come and a nonce of the client is used up.
abbrev pub with_nonce : ℕ → Connection → Connection
with_nonce n t = record t { next_authentication_nonce = n }

-- '4B 20B'
abbrev pub proof_form : Form
proof_form = many 4 u8 ∷ many 20 u8 ∷ []

seed_kept :
    (entropy : Entropy) (s : Connection)
    → s.next_authentication_nonce ≢ 0
    → seed entropy s ≡ (ok tt, s)
unfolding seed
seed_kept entropy s chosen = ground arith

take_nonce_lem :
    (n : ℕ) (t : Connection)
    → t.next_authentication_nonce ≡ n
    → n < 2 ^ 32
    → take_nonce t ≡ (ok (pack_uint 4 n), with_nonce ((n + 1) % 2 ^ 32) t)
unfolding take_nonce pack_exact
take_nonce_lem n t chosen fits = ground arith

module _ (hmac : List ℕ → List ℕ → List ℕ) (entropy : Entropy) (world : World)
    (secret key server : List ℕ) (n at : ℕ) (r : Option Returned) (s t : Connection) where
  pub handshake_lem :
      encode_ascii secret ≡ ok key
      → s.next_authentication_nonce ≡ n
      → n ≢ 0
      → n < 2 ^ 32
      → s.brickd ≡ some at
      → asks world at s ≡ (ok r, t)
      → pack_nonce r ≡ ok server
      → length (hmac key (server ++ pack_uint 4 n)) ≡ 20
      → authenticate hmac entropy world secret s
        ≡ answers world at
            (numbers (pack_uint 4 n))
            (numbers (hmac key (server ++ pack_uint 4 n)))
            (with_nonce ((n + 1) % 2 ^ 32) t)
  unfolding authenticate
  handshake_lem ascii chosen nonzero fits daemon asked packed sized =
      let same : t.next_authentication_nonce ≡ n =
        ap (λ (x : Result (Option Returned) × Connection). x.1.next_authentication_nonce)
          (sym asked)
        ∙ asks-SameNonce world at s
        ∙ chosen in
      let seeded = seed_kept entropy s (λ e. nonzero (sym chosen ∙ e)) in
      rw (ascii, seeded)
        (simp daemon (rw (asked, take_nonce_lem n t same fits, packed, sized) refl))

pub pack_uint-IsBytes : (k n : ℕ) → IsBytes (pack_uint k n)
unfolding pack_uint
pack_uint-IsBytes zero n = tt
pack_uint-IsBytes (suc k) n = (omega arith, pack_uint-IsBytes k (n / 256))

pub length-pack_uint : (k n : ℕ) → length (pack_uint k n) ≡ k
unfolding pack_uint
length-pack_uint zero n = refl
length-pack_uint (suc k) n = omega (arith, length-pack_uint k (n / 256))

pub asks-request :
    (world : World) (at : ℕ) (s : Connection)
    → asks world at s ≡ send_request (world s).0 (world s).1 at 1 [] [] (many 4 u8 ∷ []) s
unfolding asks
asks-request world at s = refl

pub answers-state :
    (world : World) (at : ℕ) (a b : Value) (s : Connection)
    → (answers world at a b s).1
      ≡ (send_request (world s).0 (world s).1 at 2 (a ∷ b ∷ []) proof_form [] s).1
unfolding answers
answers-state world at a b s =
    elim (Result-cases (send_request (world s).0 (world s).1 at 2 (a ∷ b ∷ []) proof_form [] s).0) [
      | inl (r, e) ↦ rw e refl
      | inr (x, e) ↦ rw e refl
    ]

pub flag-same :
    (d e : Device) (id : ℕ)
    → e.response_expected ≡ d.response_expected
    → get_response_expected e (pos id) ≡ get_response_expected d (pos id)
unfolding get_response_expected
flag-same d e id same = simp same refl
