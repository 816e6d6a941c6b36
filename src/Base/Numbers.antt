-- ===== src/Base/Numbers.antt =====
-- Powers of a base, in the form that `omega` reads.
use Prim.Native.Nat.{ℕ, suc, ◌*◌, ◌/◌, ◌^◌, ◌<◌}
use mathlib.Core.Path.{◌≡◌}
use native.Mathlib.Nat.{pow-suc}
use native.Mathlib.Omega.{arith}

pub pow_suc : (b w : ℕ) → b ^ suc w ≡ b * b ^ w
pow_suc b w = omega (arith, pow-suc b w)

-- A number of `w + 1` digits without its lowest one has `w` digits.
pub pow_suc_lt : (w n : ℕ) → n < 256 ^ suc w → n / 256 < 256 ^ w
pow_suc_lt w n h = omega (arith, pow_suc 256 w)

-- Python's integers. `negsuc n` is -(n + 1).
pub data ℤ : Type 0 where
  pos : ℕ → ℤ
  negsuc : ℕ → ℤ
