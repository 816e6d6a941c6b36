-- ===== src/Authentication/Numbers.antt =====
-- Bytes as the tuples of numbers that the handshake sends and receives.
use lufthansa.Base.{
  ℕ, ◌≡◌, ◌<◌, ◌≤◌, List, [], ◌∷◌, map, length, All, ok, arith, pos, some, refl, append-nil,
}
use lufthansa.Wire.{pack_exact, pack_uint}
use lufthansa.Format.{many, u8, int}
use lufthansa.Format.Pack.{pack_scalar, pack_scalars, pack_field, pack_payload}
use lufthansa.Format.Unpack.{single}
use lufthansa.Format.Typing.{HasType, Fits}
use lufthansa.Authentication.{numbers, pack_nonce}

abbrev pub IsBytes : List ℕ → Type 0
IsBytes bs = All (λ b. b < 256) bs

pack_scalars-numbers :
    (bs : List ℕ) → IsBytes bs → pack_scalars u8 (map (λ b. int (pos b)) bs) ≡ ok bs
unfolding pack_scalars pack_scalar pack_exact pack_uint
pack_scalars-numbers [] small = refl
pack_scalars-numbers (b ∷ bs) small = ground (arith, pack_scalars-numbers bs small.1)

length-numbers : (bs : List ℕ) → length (map (λ b. int (pos b)) bs) ≡ length bs
length-numbers [] = refl
length-numbers (b ∷ bs) = omega (arith, length-numbers bs)

pub numbers-HasType :
    (n : ℕ) (bs : List ℕ) → 2 ≤ n → length bs ≡ n → IsBytes bs → HasType (many n u8) (numbers bs)
numbers-HasType n bs some_bytes sized small =
    (some_bytes, omega (arith, length-numbers bs), fits bs small)
  where
    fits : (cs : List ℕ) → IsBytes cs → All (Fits u8) (map (λ b. int (pos b)) cs)
    fits [] small = tt
    fits (c ∷ cs) small = (small.0, fits cs small.1)

pack_field-numbers :
    (n : ℕ) (bs : List ℕ) → length bs ≡ n → IsBytes bs → pack_field (many n u8) (numbers bs) ≡ ok bs
unfolding pack_field
pack_field-numbers n bs sized small =
    ground (arith, length-numbers bs, pack_scalars-numbers bs small)

pub pack_nonce-numbers :
    (bs : List ℕ) → length bs ≡ 4 → IsBytes bs → pack_nonce (some (single (numbers bs))) ≡ ok bs
unfolding pack_nonce
pack_nonce-numbers bs sized small = pack_field-numbers 4 bs sized small

pub pack_payload-numbers :
    (n : ℕ) (bs : List ℕ)
    → length bs ≡ n
    → IsBytes bs
    → pack_payload (many n u8 ∷ []) (numbers bs ∷ []) ≡ ok bs
unfolding pack_payload
pack_payload-numbers n bs sized small = rw (pack_field-numbers n bs sized small, append-nil) refl
