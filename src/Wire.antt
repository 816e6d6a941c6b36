-- ===== src/Wire.antt =====
-- The packets of scripts/tinkerforge/ip_connection.py: little-endian numbers, and the header of
-- eight bytes that every packet starts with.
--   byte 0-3 uid, 4 length of the whole packet, 5 function id,
--   6 sequence number (high nibble) and the response bit (8), 7 error code (top two bits)
-- `struct.pack('<B' or '<I', n)` is `pack_uint` with its width, after the range check that makes
-- `struct` raise; `struct.unpack` wants exactly the bytes that the format has.
pub mod Bytes
pub mod Header
use lufthansa.Base.{
  ℕ, zero, suc, ◌+◌, ◌*◌, ◌/◌, ◌%◌, ◌^◌, ◌<◌, bit_and, bit_or, List, [], ◌∷◌, ◌++◌, length, take,
  drop, Bool, true, false, ltb, ◌==◌, if◌then◌else◌, Result, ok, err, struct_error, bind,
}

abbrev pub IsByte : ℕ → Type 0
IsByte b = b < 256

-- The `w` lowest bytes of a number, the lowest first.
unfoldable pub pack_uint : ℕ → ℕ → List ℕ
pack_uint zero n = []
pack_uint (suc w) n = n % 256 ∷ pack_uint w (n / 256)

unfoldable pub unpack_uint : List ℕ → ℕ
unpack_uint [] = 0
unpack_uint (b ∷ bs) = b + 256 * unpack_uint bs

-- struct.pack('<B', n), struct.pack('<H', n), struct.pack('<I', n), ...
unfoldable pub pack_exact : ℕ → ℕ → Result (List ℕ)
pack_exact w n = if ltb n (256 ^ w) then ok (pack_uint w n) else err struct_error

-- struct.unpack('<B', bs)[0], ...
unfoldable pub unpack_exact : ℕ → List ℕ → Result ℕ
unpack_exact w bs = if length bs == w then ok (unpack_uint bs) else err struct_error

-- bs[i:j]
abbrev pub slice : ℕ → ℕ → List ℕ → List ℕ
slice i n bs = take n (drop i bs)

unfoldable pub get_uid_from_data : List ℕ → Result ℕ
get_uid_from_data bytes = unpack_exact 4 (slice 0 4 bytes)

unfoldable pub get_length_from_data : List ℕ → Result ℕ
get_length_from_data bytes = unpack_exact 1 (slice 4 1 bytes)

unfoldable pub get_function_id_from_data : List ℕ → Result ℕ
get_function_id_from_data bytes = unpack_exact 1 (slice 5 1 bytes)

unfoldable pub get_sequence_number_from_data : List ℕ → Result ℕ
get_sequence_number_from_data bytes =
    bind (unpack_exact 1 (slice 6 1 bytes)) λ b. ok (bit_and (b / 16) 0x0F)

unfoldable pub get_error_code_from_data : List ℕ → Result ℕ
get_error_code_from_data bytes =
    bind (unpack_exact 1 (slice 7 1 bytes)) λ b. ok (bit_and (b / 64) 0x03)

-- (sequence_number << 4) | (r_bit << 3)
abbrev pub options : ℕ → Bool → ℕ
options sequence_number r_bit = bit_or (sequence_number * 16) (if r_bit then 8 else 0)

-- struct.pack('<IBBBB', uid, length, function_id, sequence_number_and_options, 0)
unfoldable pub pack_header : ℕ → ℕ → ℕ → ℕ → Bool → Result (List ℕ)
pack_header uid len function_id sequence_number r_bit = bind (pack_exact 4 uid) λ a.
    bind (pack_exact 1 len) λ b. bind (pack_exact 1 function_id) λ c.
      bind (pack_exact 1 (options sequence_number r_bit))
        λ d. bind (pack_exact 1 0) λ e. ok (a ++ (b ++ (c ++ (d ++ e))))
