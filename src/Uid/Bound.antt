-- ===== src/Uid/Bound.antt =====
-- A shortened uid has 32 bits.
use lufthansa.Base.{ℕ, ◌/◌, ◌^◌, ◌<◌, bit_and, arith}
use lufthansa.Base.Words.{bit_and-lt, bit_or-lt}
use lufthansa.Uid.{uid64_to_uid32}

pub uid64_to_uid32-lt : (uid64 : ℕ) → uid64_to_uid32 uid64 < 2 ^ 32
unfolding uid64_to_uid32
uid64_to_uid32-lt uid64 =
    let value1 : ℕ = bit_and uid64 0xFFFFFFFF in
    let value2 : ℕ = bit_and (uid64 / 2 ^ 32) 0xFFFFFFFF in
    let a = bit_and-lt 12 value1 0x00000FFF (omega arith) in
    let b = bit_and-lt 28 value1 0x0F000000 (omega arith) in
    let c = bit_and-lt 6 value2 0x0000003F (omega arith) in
    let d = bit_and-lt 20 value2 0x000F0000 (omega arith) in
    let e = bit_and-lt 30 value2 0x3F000000 (omega arith) in
    bit_or-lt 32 _ _
      (bit_or-lt 32 _ _
        (bit_or-lt 32 _ _ (bit_or-lt 32 _ _ (omega (arith, a)) (omega (arith, b)))
          (omega (arith, c)))
        (omega (arith, d)))
      (omega (arith, e))
