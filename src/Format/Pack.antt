-- ===== src/Format/Pack.antt =====
-- The packing loop of `send_request`, and the local function `pack_string`.
use lufthansa.Base.{
  ℕ, zero, suc, ◌-◌, ◌/◌, ◌^◌, List, [], ◌∷◌, ◌++◌, Bool, true, false, not, ltb, ◌%◌, ◌==◌,
  if◌then◌else◌, length, take, replicate, ℤ, pos, negsuc, Result, ok, err, bind, struct_error,
  value_error, type_error,
}
use lufthansa.Wire.{pack_uint, pack_exact}
use lufthansa.Format.{
  Code, ch, str, u8, i8, u16, i16, u32, i32, u64, i64, f32, flag, Token, one, many, Form, Scalar,
  int, boolean, char, real, Value, scalar, tuple, text, size,
}

-- struct.pack of a signed number of `w` bytes: two's complement.
unfoldable pub pack_int : ℕ → ℤ → Result (List ℕ)
pack_int w (pos n) = if ltb n (256 ^ w / 2) then ok (pack_uint w n) else err struct_error
pack_int w (negsuc n) =
    if ltb n (256 ^ w / 2) then ok (pack_uint w (256 ^ w - suc n)) else err struct_error

abbrev pub pack_unsigned : ℕ → ℤ → Result (List ℕ)
pack_unsigned w (pos n) = pack_exact w n
pack_unsigned w (negsuc n) = err struct_error

abbrev pub is_nonzero : ℤ → Bool
is_nonzero (pos zero) = false
is_nonzero _ = true

abbrev pub bit : Bool → ℕ
bit true = 1
bit false = 0

-- A number at each code. `True` and `False` are the numbers 1 and 0. No request of the program has
-- a part 'f', so the conversion of an integer to a float is left out.
unfoldable pub pack_number : Code → ℤ → Result (List ℕ)
unfolding size
pack_number u8 z = pack_unsigned (size u8) z
pack_number u16 z = pack_unsigned (size u16) z
pack_number u32 z = pack_unsigned (size u32) z
pack_number u64 z = pack_unsigned (size u64) z
pack_number i8 z = pack_int (size i8) z
pack_number i16 z = pack_int (size i16) z
pack_number i32 z = pack_int (size i32) z
pack_number i64 z = pack_int (size i64) z
pack_number flag z = ok (bit (is_nonzero z) ∷ [])
pack_number _ z = err struct_error

-- struct.pack('<' + code, x) where the code is no 'c' and no 's'.
unfoldable pub pack_scalar : Code → Scalar → Result (List ℕ)
unfolding pack_number
pack_scalar k (int z) = pack_number k z
pack_scalar k (boolean x) = pack_number k (pos (bit x))
pack_scalar f32 (real w) = pack_exact 4 w
pack_scalar flag (char x) = ok (1 ∷ [])
pack_scalar flag (real w) = ok (bit (not (w % 2 ^ 31 == 0)) ∷ [])
pack_scalar _ (char x) = err struct_error
pack_scalar _ (real w) = err struct_error

-- struct.pack('<nB', *d): one argument for each of the n elements.
unfoldable pub pack_scalars : Code → List Scalar → Result (List ℕ)
unfolding pack_scalar
pack_scalars k [] = ok []
pack_scalars k (x ∷ xs) =
    let rest = pack_scalars k xs in bind (pack_scalar k x) λ bs. bind rest λ more. ok (bs ++ more)

-- bytes(map(ord, d)): a code point that is no byte raises.
unfoldable pub to_bytes : List ℕ → Result (List ℕ)
to_bytes [] = ok []
to_bytes (x ∷ xs) =
    let rest = to_bytes xs in
    if ltb x 256 then bind rest (λ more. ok (x ∷ more)) else err value_error

-- struct.pack('<ns', bytes): cut or filled with zeros to n bytes.
abbrev pub fit : ℕ → List ℕ → List ℕ
fit n bs = take n bs ++ replicate (n - length bs) 0

-- struct.pack('<c', bytes)
abbrev pub pack_char_bytes : List ℕ → Result (List ℕ)
pack_char_bytes (x ∷ []) = ok (x ∷ [])
pack_char_bytes _ = err struct_error

-- pack_string('c', k)
unfoldable pub pack_char : List ℕ → Result (List ℕ)
unfolding to_bytes
pack_char k = bind (to_bytes k) pack_char_bytes

-- pack_string(f, d) where the part has an 's'.
unfoldable pub pack_string : ℕ → List ℕ → Result (List ℕ)
unfolding to_bytes
pack_string n d = bind (to_bytes d) λ bs. ok (fit n bs)

-- for k in d: request += pack_string('c', k), over a list of one-character texts.
unfoldable pub pack_chars : List Scalar → Result (List ℕ)
unfolding pack_char
pack_chars [] = ok []
pack_chars (char x ∷ xs) =
    let rest = pack_chars xs in bind (pack_char (x ∷ [])) λ bs. bind rest λ more. ok (bs ++ more)
pack_chars (_ ∷ xs) = err struct_error

-- The same over a text.
abbrev pub chars : List ℕ → List Scalar
chars [] = []
chars (x ∷ xs) = char x ∷ chars xs

-- The body of the loop `for f, d in zip(form.split(' '), data)`.
unfoldable pub pack_field : Token → Value → Result (List ℕ)
unfolding pack_scalar pack_scalars pack_chars pack_char pack_string
pack_field (many n str) (text d) = pack_string n d
pack_field (many n str) (scalar (char x)) = pack_string n (x ∷ [])
pack_field (many n str) _ = err struct_error
pack_field (many n ch) (tuple d) = if n == length d then pack_chars d else err value_error
pack_field (many n ch) (text d) = if n == length d then pack_chars (chars d) else err value_error
pack_field (many n ch) (scalar (char x)) = if n == 1 then pack_char (x ∷ []) else err value_error
pack_field (many n ch) (scalar _) = err type_error
pack_field (many n k) (tuple d) = if n == length d then pack_scalars k d else err struct_error
pack_field (many n k) (text d) =
    if n == length d then pack_scalars k (chars d) else err struct_error
pack_field (many n k) (scalar (char x)) =
    if n == 1 then pack_scalar k (char x) else err struct_error
pack_field (many n k) (scalar _) = err type_error
pack_field (one str) (text d) = pack_string 1 d
pack_field (one str) (scalar (char x)) = pack_string 1 (x ∷ [])
pack_field (one str) _ = err struct_error
pack_field (one ch) (text d) = pack_char d
pack_field (one ch) (scalar (char x)) = pack_char (x ∷ [])
pack_field (one ch) _ = err struct_error
pack_field (one k) (scalar x) = pack_scalar k x
pack_field (one flag) (text []) = ok (0 ∷ [])
pack_field (one flag) (tuple []) = ok (0 ∷ [])
pack_field (one flag) _ = ok (1 ∷ [])
pack_field (one k) _ = err struct_error

-- `zip` stops with the shorter of the format and the data.
unfoldable pub pack_payload : Form → List Value → Result (List ℕ)
unfolding pack_field
pack_payload [] vs = ok []
pack_payload (t ∷ ts) [] = ok []
pack_payload (t ∷ ts) (v ∷ vs) =
    let rest = pack_payload ts vs in bind (pack_field t v) λ bs. bind rest λ more. ok (bs ++ more)
