-- ===== src/Format/RoundTrip/Texts.antt =====
-- Characters and texts: ASCII is read back, and a text that is filled with zeros is cut at the first.
use lufthansa.Base.{
  ℕ, zero, suc, ◌-◌, ◌≤◌, ◌<◌, ◌≡◌, refl, ap, List, [], ◌∷◌, ◌++◌, length, take, replicate, All, ok,
  arith, length-append, length-replicate,
}
use lufthansa.Wire.{unpack_uint}
use lufthansa.Format.{ch, Scalar, int, boolean, char, real}
use lufthansa.Format.Pack.{pack_char, pack_chars, pack_string, to_bytes}
use lufthansa.Format.Unpack.{
  unpack_scalar, unpack_scalars, handle_deserialized_char, decode_chars, decode_ascii, cut_at_nul,
  handle_deserialized_string,
}
use lufthansa.Format.Typing.{Fits, IsTextByte}

pub char_roundtrip :
    (x : ℕ)
    → x < 128
    → (pack_char (x ∷ []) ≡ ok (x ∷ []))
      × (unpack_scalar ch (x ∷ []) ≡ char x)
      × (handle_deserialized_char x ≡ ok x)
unfolding pack_char unpack_scalar handle_deserialized_char unpack_uint
char_roundtrip x small = ground arith

pub chars_roundtrip :
    (xs : List Scalar)
    → All (Fits ch) xs
    → (bs : List ℕ) × (pack_chars xs ≡ ok bs)
      × (length bs ≡ length xs)
      × (unpack_scalars ch (length xs) bs ≡ xs)
      × (decode_chars xs ≡ ok xs)
unfolding pack_chars unpack_scalars decode_chars
chars_roundtrip [] fits = ([], refl, refl, refl, refl)
chars_roundtrip (char x ∷ xs) fits =
    let (p, u, d) = char_roundtrip x fits.0 in
    let (more, p', l', u', d') = chars_roundtrip xs fits.1 in
    (x ∷ more, rw (p, p'), ap suc l', rw (u, u'), rw (d, d'))
chars_roundtrip (int z ∷ xs) fits = absurd fits.0
chars_roundtrip (boolean z ∷ xs) fits = absurd fits.0
chars_roundtrip (real z ∷ xs) fits = absurd fits.0

to_bytes_lem : (t : List ℕ) → All IsTextByte t → to_bytes t ≡ ok t
unfolding to_bytes
to_bytes_lem [] h = refl
to_bytes_lem (x ∷ xs) h = ground (arith, to_bytes_lem xs h.1)

take-all : (n : ℕ) (t : List ℕ) → length t ≤ n → take n t ≡ t
take-all zero [] h = refl
take-all zero (x ∷ t) h = absurd (omega arith)
take-all (suc n) [] h = refl
take-all (suc n) (x ∷ t) h = ap (λ (l : List ℕ). x ∷ l) (take-all n t (omega arith))

zeros_cut : (n : ℕ) → cut_at_nul (replicate n 0) ≡ []
unfolding cut_at_nul
zeros_cut zero = refl
zeros_cut (suc n) = refl

decode_zeros : (n : ℕ) → decode_ascii (replicate n 0) ≡ ok (replicate n 0)
unfolding decode_ascii
decode_zeros zero = refl
decode_zeros (suc n) = rw (decode_zeros n)

decode_filled :
    (t : List ℕ) (n : ℕ)
    → All IsTextByte t
    → decode_ascii (t ++ replicate n 0) ≡ ok (t ++ replicate n 0)
unfolding decode_ascii handle_deserialized_char
decode_filled [] n h = decode_zeros n
decode_filled (x ∷ t) n h = ground (arith, decode_filled t n h.1)

cut_filled : (t : List ℕ) (n : ℕ) → All IsTextByte t → cut_at_nul (t ++ replicate n 0) ≡ t
unfolding cut_at_nul
cut_filled [] n h = zeros_cut n
cut_filled (x ∷ t) n h = ground (arith, cut_filled t n h.1)

pub text_roundtrip :
    (n : ℕ) (t : List ℕ)
    → length t ≤ n
    → All IsTextByte t
    → (bs : List ℕ) × (pack_string n t ≡ ok bs)
      × (length bs ≡ n)
      × (handle_deserialized_string bs ≡ ok t)
unfolding pack_string handle_deserialized_string
text_roundtrip n t short h =
    let filled = t ++ replicate (n - length t) 0 in
    (
      filled,
      rw (to_bytes_lem t h, take-all n t short),
      omega (
        arith,
        length-append t (replicate (n - length t) 0),
        length-replicate {A = ℕ} (n - length t) 0,
      ),
      rw (decode_filled t (n - length t) h, cut_filled t (n - length t) h),
    )
