-- ===== src/Base/Bits.antt =====
-- Masks and shifts of one byte as arithmetic; each is a table of at most 256 entries.
use Prim.Native.Nat.{ℕ, zero, suc, ◌+◌, ◌*◌, ◌%◌, ◌<◌, bit_and, bit_or}
use mathlib.Core.Path.{◌≡◌, refl}
use mathlib.Core.Bool.{Bool, true, false}
use mathlib.Core.Logic.{ite}
use native.Mathlib.Decide.{ℕ_discrete}
use native.Mathlib.Omega.{arith}

module _ (f g : ℕ → ℕ) where
  agree_below : ℕ → Bool
  unfolding ℕ_discrete
  agree_below zero = true
  agree_below (suc n) = ite (ℕ_discrete (f n) (g n)) (agree_below n) false

  agree_below→eq : (n : ℕ) → agree_below n ≡ true → (i : ℕ) → i < n → f i ≡ g i
  unfolding agree_below
  agree_below→eq zero e i h = absurd (omega arith)
  agree_below→eq (suc n) e i h = ground (arith, agree_below→eq n (ground arith) i)

pub low_nibble : (b : ℕ) → b < 16 → bit_and b 0x0F ≡ b
unfolding agree_below
low_nibble = agree_below→eq _ _ 16 refl

pub low_two_bits : (b : ℕ) → b < 256 → bit_and b 0x03 ≡ b % 4
unfolding agree_below
low_two_bits = agree_below→eq _ _ 256 refl

pub nibble_and_zero : (s : ℕ) → s < 16 → bit_or (s * 16) 0 ≡ s * 16
unfolding agree_below
nibble_and_zero = agree_below→eq _ _ 16 refl

pub nibble_and_flag : (s : ℕ) → s < 16 → bit_or (s * 16) 8 ≡ s * 16 + 8
unfolding agree_below
nibble_and_flag = agree_below→eq _ _ 16 refl
