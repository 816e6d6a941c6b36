-- ===== src/Wire/Header.antt =====
-- The header codec: the five `get_..._from_data` functions read what `create_packet_header` packs.
use lufthansa.Base.{
  ℕ, ◌/◌, ◌^◌, ◌<◌, ◌≡◌, refl, List, [], ◌∷◌, ◌++◌, length, Bool, true, false, arith, ok,
}
use lufthansa.Base.Bits.{low_nibble, nibble_and_zero, nibble_and_flag}
use lufthansa.Wire.{
  pack_uint, unpack_uint, pack_exact, unpack_exact, pack_header, options, get_uid_from_data,
  get_length_from_data, get_function_id_from_data, get_sequence_number_from_data,
  get_error_code_from_data,
}

-- The header bytes of a packet.
abbrev pub header : ℕ → ℕ → ℕ → ℕ → Bool → List ℕ
header uid len function_id sequence_number r_bit =
    pack_uint 4 uid ++ (len ∷ function_id ∷ options sequence_number r_bit ∷ 0 ∷ [])

options_lem : (s : ℕ) (r : Bool) → s < 16 → (options s r < 256) × (options s r / 16 ≡ s)
options_lem s true h = omega (arith, nibble_and_flag s h)
options_lem s false h = omega (arith, nibble_and_zero s h)

module _ (uid len function_id sequence_number : ℕ) (r_bit : Bool) (rest : List ℕ)
    (hu : uid < 2 ^ 32) (hl : len < 256) (hf : function_id < 256) (hs : sequence_number < 16) where
  abbrev packed : List ℕ
  packed = header uid len function_id sequence_number r_bit ++ rest

  pub pack_header_lem :
      pack_header uid len function_id sequence_number r_bit
      ≡ ok (header uid len function_id sequence_number r_bit)
  unfolding pack_header pack_exact pack_uint
  pack_header_lem = ground (arith, options_lem sequence_number r_bit hs)

  pub get_uid-header : get_uid_from_data packed ≡ ok uid
  unfolding get_uid_from_data unpack_exact pack_uint unpack_uint
  get_uid-header = ground arith

  pub get_length-header : get_length_from_data packed ≡ ok len
  unfolding get_length_from_data unpack_exact pack_uint unpack_uint
  get_length-header = ground arith

  pub get_function_id-header : get_function_id_from_data packed ≡ ok function_id
  unfolding get_function_id_from_data unpack_exact pack_uint unpack_uint
  get_function_id-header = ground arith

  pub get_sequence_number-header : get_sequence_number_from_data packed ≡ ok sequence_number
  unfolding get_sequence_number_from_data unpack_exact pack_uint unpack_uint
  get_sequence_number-header =
      ground (arith, options_lem sequence_number r_bit hs, low_nibble sequence_number hs)

  pub get_error_code-header : get_error_code_from_data packed ≡ ok 0
  unfolding get_error_code_from_data unpack_exact pack_uint unpack_uint
  get_error_code-header = refl

-- What the five accessors read in a packet.
pub record Reads (packet : List ℕ) (uid len function_id sequence_number error_code : ℕ)
    : Type 0 where
  pub reads_uid : get_uid_from_data packet ≡ ok uid
  pub reads_length : get_length_from_data packet ≡ ok len
  pub reads_function_id : get_function_id_from_data packet ≡ ok function_id
  pub reads_sequence_number : get_sequence_number_from_data packet ≡ ok sequence_number
  pub reads_error_code : get_error_code_from_data packet ≡ ok error_code

-- Whatever payload follows a header that was packed within the field widths, the accessors read the
-- packed uid, length, function id and sequence number back, and error code 0.
pub pack_header_fields :
    (uid len function_id sequence_number : ℕ) (r_bit : Bool) (payload : List ℕ)
    → uid < 2 ^ 32
    → len < 256
    → function_id < 256
    → sequence_number < 16
    → (h : List ℕ) × (pack_header uid len function_id sequence_number r_bit ≡ ok h)
      × (length h ≡ 8)
      × Reads (h ++ payload) uid len function_id sequence_number 0
unfolding pack_uint
pack_header_fields u l f s r payload hu hl hf hs = (
  header u l f s r,
  pack_header_lem u l f s r payload hu hl hf hs,
  refl,
  record {
    reads_uid = get_uid-header u l f s r payload hu hl hf hs;
    reads_length = get_length-header u l f s r payload hu hl hf hs;
    reads_function_id = get_function_id-header u l f s r payload hu hl hf hs;
    reads_sequence_number = get_sequence_number-header u l f s r payload hu hl hf hs;
    reads_error_code = get_error_code-header u l f s r payload hu hl hf hs;
  },
)
