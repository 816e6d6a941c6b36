-- ===== src/Format/Unpack.antt =====
-- `deserialize_data`, `handle_deserialized_char` and `handle_deserialized_string`.
use lufthansa.Base.{
  ℕ, zero, suc, ◌-◌, ◌/◌, ◌^◌, List, [], ◌∷◌, not, ltb, ◌==◌, if◌then◌else◌, length, take, drop, ℤ,
  pos, negsuc, Result, ok, err, bind, struct_error, unicode_error, index_error,
}
use lufthansa.Wire.{unpack_uint}
use lufthansa.Format.{
  Code, ch, str, i8, i16, i32, i64, f32, flag, Token, one, many, Form, Scalar, int, boolean, char,
  real, Value, scalar, tuple, text, size, token_size,
}

unfoldable pub unpack_int : ℕ → List ℕ → ℤ
unpack_int w bs =
    let u = unpack_uint bs in if ltb u (256 ^ w / 2) then pos u else negsuc (256 ^ w - u - 1)

-- One element of struct.unpack, from as many bytes as the code has. A byte of 'c' stays a byte here.
unfoldable pub unpack_scalar : Code → List ℕ → Scalar
unfolding size unpack_int
unpack_scalar i8 bs = int (unpack_int (size i8) bs)
unpack_scalar i16 bs = int (unpack_int (size i16) bs)
unpack_scalar i32 bs = int (unpack_int (size i32) bs)
unpack_scalar i64 bs = int (unpack_int (size i64) bs)
unpack_scalar flag bs = boolean (not (unpack_uint bs == 0))
unpack_scalar f32 bs = real (unpack_uint bs)
unpack_scalar ch bs = char (unpack_uint bs)
unpack_scalar str bs = char (unpack_uint bs)
unpack_scalar _ bs = int (pos (unpack_uint bs))

unfoldable pub unpack_scalars : Code → ℕ → List ℕ → List Scalar
unfolding unpack_scalar
unpack_scalars k zero bs = []
unpack_scalars k (suc n) bs =
    unpack_scalar k (take (size k) bs) ∷ unpack_scalars k n (drop (size k) bs)

-- c.decode('ascii')
unfoldable pub handle_deserialized_char : ℕ → Result ℕ
handle_deserialized_char x = if ltb x 128 then ok x else err unicode_error

unfoldable pub decode_ascii : List ℕ → Result (List ℕ)
unfolding handle_deserialized_char
decode_ascii [] = ok []
decode_ascii (x ∷ xs) =
    let rest = decode_ascii xs in
    bind (handle_deserialized_char x) λ y. bind rest λ more. ok (y ∷ more)

-- i = s.find(chr(0)); s[:i] if i >= 0
unfoldable pub cut_at_nul : List ℕ → List ℕ
cut_at_nul [] = []
cut_at_nul (x ∷ xs) = let rest = cut_at_nul xs in if x == 0 then [] else x ∷ rest

unfoldable pub handle_deserialized_string : List ℕ → Result (List ℕ)
unfolding decode_ascii cut_at_nul
handle_deserialized_string bs = bind (decode_ascii bs) λ t. ok (cut_at_nul t)

-- tuple([self.handle_deserialized_char(c) for c in x])
unfoldable pub decode_chars : List Scalar → Result (List Scalar)
unfolding handle_deserialized_char
decode_chars [] = ok []
decode_chars (char x ∷ xs) =
    let rest = decode_chars xs in
    bind (handle_deserialized_char x) λ y. bind rest λ more. ok (char y ∷ more)
decode_chars (x ∷ xs) = let rest = decode_chars xs in bind rest λ more. ok (x ∷ more)

abbrev pub single_char : Scalar → Result Value
single_char (char x) = bind (handle_deserialized_char x) λ y. ok (scalar (char y))
single_char x = ok (scalar x)

-- What is appended to `ret` for the unpacked tuple `x` of a part with the code `k`.
unfoldable pub collect : Code → List Scalar → Result Value
unfolding decode_chars handle_deserialized_char
collect k [] = err index_error
collect ch (x ∷ []) = single_char x
collect k (x ∷ []) = ok (scalar x)
collect ch (x ∷ y ∷ xs) = bind (decode_chars (x ∷ y ∷ xs)) λ cs. ok (tuple cs)
collect k (x ∷ y ∷ xs) = ok (tuple (x ∷ y ∷ xs))

-- struct.unpack('<' + part, ...) on exactly the bytes of the part, and the conversion.
unfoldable pub unpack_token : Token → List ℕ → Result Value
unfolding collect unpack_scalars handle_deserialized_string
unpack_token (many n str) bs = bind (handle_deserialized_string bs) λ t. ok (text t)
unpack_token (one str) bs = bind (handle_deserialized_string bs) λ t. ok (text t)
unpack_token (many n k) bs = collect k (unpack_scalars k n bs)
unpack_token (one k) bs = collect k (unpack_scalars k 1 bs)

-- The body of the loop `for f in form.split(' ')`; `data[:length]` may be too short for `struct`.
unfoldable pub unpack_field : Token → List ℕ → Result Value
unfolding unpack_token token_size
unpack_field t bs =
    if length (take (token_size t) bs) == token_size t
    then unpack_token t (take (token_size t) bs)
    else err struct_error

unfoldable pub unpack_payload : Form → List ℕ → Result (List Value)
unfolding unpack_field
unpack_payload [] bs = ok []
unpack_payload (t ∷ ts) bs =
    let rest = unpack_payload ts (drop (token_size t) bs) in
    bind (unpack_field t bs) λ v. bind rest λ more. ok (v ∷ more)

-- The result of `deserialize_data`: the element of a `ret` that has one, or the list.
pub data Returned : Type 0 where
  single : Value → Returned
  several : List Value → Returned

abbrev pub returned : List Value → Returned
returned (v ∷ []) = single v
returned vs = several vs

-- The text '' is split into one empty part, of which x[0] does not exist.
unfoldable pub deserialize_data : List ℕ → Form → Result Returned
unfolding unpack_payload
deserialize_data bs [] = err index_error
deserialize_data bs (t ∷ ts) = bind (unpack_payload (t ∷ ts) bs) λ vs. ok (returned vs)
