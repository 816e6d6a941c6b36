-- ===== src/Base/Words.antt =====
-- `&` and `|` stay within the width of their operands.
use Prim.Native.Nat.{
  ℕ, zero, suc, ◌/◌, ◌^◌, ◌<◌, min, max, digits, bit_and, bit_or, bit_and-bitwise, bit_or-bitwise,
}
use mathlib.Core.Path.{sym, subst}
use native.Mathlib.Nat.{one-le-pow}
use native.Mathlib.Omega.{arith}
use lufthansa.Base.Numbers.{pow_suc}

and_digits-lt : (n a b k : ℕ) → b < 2 ^ k → digits (λ b. zero) min n a b < 2 ^ k
and_digits-lt zero a b k h = omega (arith, one-le-pow k 2)
and_digits-lt (suc n) zero b k h = omega (arith, one-le-pow k 2)
and_digits-lt (suc n) (suc a) b zero h =
    omega (arith, and_digits-lt n (suc a / 2) (b / 2) zero (omega arith))
and_digits-lt (suc n) (suc a) b (suc k) h =
    omega (arith, pow_suc 2 k, and_digits-lt n (suc a / 2) (b / 2) k (omega (arith, pow_suc 2 k)))

or_digits-lt : (n a b k : ℕ) → a < 2 ^ k → b < 2 ^ k → digits (λ b. b) max n a b < 2 ^ k
or_digits-lt zero a b k g h = h
or_digits-lt (suc n) zero b k g h = h
or_digits-lt (suc n) (suc a) b zero g h = absurd (omega arith)
or_digits-lt (suc n) (suc a) b (suc k) g h = omega (
  arith,
  pow_suc 2 k,
  or_digits-lt n (suc a / 2) (b / 2) k (omega (arith, pow_suc 2 k)) (omega (arith, pow_suc 2 k)),
)

pub bit_and-lt : (k a b : ℕ) → b < 2 ^ k → bit_and a b < 2 ^ k
bit_and-lt k a b h = subst (λ n. n < 2 ^ k) (sym (bit_and-bitwise a b)) (and_digits-lt a a b k h)

pub bit_or-lt : (k a b : ℕ) → a < 2 ^ k → b < 2 ^ k → bit_or a b < 2 ^ k
bit_or-lt k a b g h = subst (λ n. n < 2 ^ k) (sym (bit_or-bitwise a b)) (or_digits-lt a a b k g h)
