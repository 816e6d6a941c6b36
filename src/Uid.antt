-- ===== src/Uid.antt =====
-- scripts/tinkerforge/ip_connection.py, uid64_to_uid32: a 64-bit uid folded to 32 bits.
pub mod Bound
use lufthansa.Base.{ℕ, ◌*◌, ◌/◌, ◌^◌, bit_and, bit_or}

-- `>> k` is `/ 2 ^ k` and `<< k` is `* 2 ^ k`.
unfoldable pub uid64_to_uid32 : ℕ → ℕ
uid64_to_uid32 uid64 =
    let value1 = bit_and uid64 0xFFFFFFFF in
    let value2 = bit_and (uid64 / 2 ^ 32) 0xFFFFFFFF in
    let low = bit_and value1 0x00000FFF in
    let second = bit_or low (bit_and value1 0x0F000000 / 2 ^ 12) in
    let third = bit_or second (bit_and value2 0x0000003F * 2 ^ 16) in
    let fourth = bit_or third (bit_and value2 0x000F0000 * 2 ^ 6) in
    bit_or fourth (bit_and value2 0x3F000000 * 2 ^ 2)
