-- ===== src/Format/RoundTrip.antt =====
-- Unpacking reads back what packing wrote, and the length is what `calcsize` says.
mod Scalars
mod Texts
use lufthansa.Base.{
  ℕ, zero, suc, ◌+◌, ◌*◌, ◌^◌, ◌≤◌, ◌<◌, ◌≡◌, ◌≢◌, refl, ap, ◌∙◌, List, [], ◌∷◌, ◌++◌, length, take,
  drop, All, Result, ok, err, bind, arith, length-append, take-append, take-length, drop-append,
  ◌==◌, if◌then◌else◌, struct_error, append_assoc,
}
use lufthansa.Wire.{unpack_uint}
use lufthansa.Format.{
  Code, ch, str, u8, i8, u16, i16, u32, i32, u64, i64, f32, flag, Token, one, many, Form, Scalar,
  int, boolean, char, real, Value, scalar, tuple, text, size, token_size, calcsize,
}
use lufthansa.Format.Pack.{pack_field, pack_payload, pack_scalar, pack_scalars}
use lufthansa.Format.Unpack.{
  unpack_field, unpack_payload, unpack_token, collect, unpack_scalar, unpack_scalars,
  deserialize_data, returned,
}
use lufthansa.Format.Typing.{Fits, HasType, HasTypes}
use lufthansa.Format.RoundTrip.Scalars.{scalar_roundtrip, scalars_roundtrip}
use lufthansa.Format.RoundTrip.Texts.{char_roundtrip, chars_roundtrip, text_roundtrip}

abbrev HasTuple : ℕ → Code → List Scalar → Type 0
HasTuple n k xs = (2 ≤ n) × (n ≡ length xs) × All (Fits k) xs

-- A packed part: its bytes, how many they are, and what they unpack to.
abbrev Carries : Token → Value → Type 0
Carries t v =
    (bs : List ℕ) × (pack_field t v ≡ ok bs)
    × (length bs ≡ token_size t)
    × (unpack_token t bs ≡ ok v)

collect_many : (k : Code) (xs : List Scalar) → 2 ≤ length xs → k ≢ ch → collect k xs ≡ ok (tuple xs)
unfolding collect
collect_many ch xs long nc = absurd (nc refl)
collect_many k [] long nc = absurd (omega arith)
collect_many k (x ∷ []) long nc = absurd (omega arith)
collect_many u8 (x ∷ y ∷ xs) long nc = refl
collect_many _ (x ∷ y ∷ xs) long nc = refl

-- The parts with a code other than 'c' and 's' go through `pack_scalar` and `unpack_scalar`.
one_rules :
    (k : Code) (x : Scalar)
    → k ≢ ch
    → k ≢ str
    → (pack_field (one k) (scalar x) ≡ pack_scalar k x)
      × ((bs : List ℕ) → unpack_token (one k) bs ≡ ok (scalar (unpack_scalar k (take (size k) bs))))
unfolding pack_field unpack_token
one_rules ch x nc ns = absurd (nc refl)
one_rules str x nc ns = absurd (ns refl)
one_rules _ x nc ns = (refl, λ bs. refl)

many_rules :
    (n : ℕ) (k : Code) (xs : List Scalar)
    → k ≢ ch
    → k ≢ str
    → (pack_field (many n k) (tuple xs)
        ≡ (if n == length xs then pack_scalars k xs else err struct_error))
      × ((bs : List ℕ) → unpack_token (many n k) bs ≡ collect k (unpack_scalars k n bs))
unfolding pack_field unpack_token
many_rules n ch xs nc ns = absurd (nc refl)
many_rules n str xs nc ns = absurd (ns refl)
many_rules n _ xs nc ns = (refl, λ bs. refl)

one_roundtrip : (k : Code) (x : Scalar) → Fits k x → k ≢ ch → k ≢ str → Carries (one k) (scalar x)
unfolding token_size
one_roundtrip k x fits nc ns =
    let (bs, p, l, u) = scalar_roundtrip k x nc fits in
    let (packs, unpacks) = one_rules k x nc ns in
    (bs, packs ∙ p, l, unpacks bs ∙ rw (← l, take-length, u))

many_roundtrip :
    (n : ℕ) (k : Code) (xs : List Scalar)
    → HasTuple n k xs
    → k ≢ ch
    → k ≢ str
    → Carries (many n k) (tuple xs)
unfolding token_size
many_roundtrip n k xs (long, count, fits) nc ns =
    let (bs, p, l, u) = scalars_roundtrip k xs nc fits in
    let (packs, unpacks) = many_rules n k xs nc ns in
    (
      bs,
      packs ∙ rw p (ground arith),
      rw count l,
      unpacks bs ∙ rw (count, u) (collect_many k xs (rw count at long) nc),
    )

many_chars_roundtrip :
    (n : ℕ) (xs : List Scalar) → HasTuple n ch xs → Carries (many n ch) (tuple xs)
unfolding pack_field token_size unpack_token collect
many_chars_roundtrip n [] (long, count, fits) = absurd (omega arith)
many_chars_roundtrip n (x ∷ []) (long, count, fits) = absurd (omega arith)
many_chars_roundtrip n (x ∷ y ∷ xs) (long, count, fits) =
    let (bs, p, l, u, d) = chars_roundtrip (x ∷ y ∷ xs) fits in
    (
      bs,
      rw p (ground arith),
      omega arith,
      ap (λ (m : ℕ). collect ch (unpack_scalars ch m bs)) count ∙ ap (collect ch) u ∙ rw d,
    )

one_char : (x : ℕ) → x < 128 → unpack_token (one ch) (x ∷ []) ≡ ok (scalar (char x))
unfolding unpack_token unpack_uint
one_char x small = ground arith

-- Every part carries every value of its type.
pub token_roundtrip : (t : Token) (v : Value) → HasType t v → Carries t v
unfolding pack_field token_size unpack_token
token_roundtrip (many n str) (text t) (short, ascii) =
    let (bs, p, l, u) = text_roundtrip n t short ascii in (bs, p, omega (arith, l), rw u)
token_roundtrip (many n ch) (tuple xs) typed = many_chars_roundtrip n xs typed
token_roundtrip (one ch) (scalar (char x)) small =
    (x ∷ [], (char_roundtrip x small).0, refl, one_char x small)
token_roundtrip (one ch) (scalar x) fits = absurd fits
token_roundtrip (one str) (scalar x) fits = absurd fits
token_roundtrip (one u8) (scalar x) fits = one_roundtrip u8 x fits (λ e. cc) (λ e. cc)
token_roundtrip (one k) (scalar x) fits = one_roundtrip k x fits (λ e. cc) (λ e. cc)
token_roundtrip (many n str) (tuple xs) typed = absurd typed
token_roundtrip (many n u8) (tuple xs) typed = many_roundtrip n u8 xs typed (λ e. cc) (λ e. cc)
token_roundtrip (many n k) (tuple xs) typed = many_roundtrip n k xs typed (λ e. cc) (λ e. cc)
token_roundtrip _ v typed = absurd typed

unpack_field-append :
    (t : Token) (bs rest : List ℕ)
    → length bs ≡ token_size t
    → unpack_field t (bs ++ rest) ≡ unpack_token t bs
unfolding unpack_field
unpack_field-append t bs rest l = rw (← l, take-append) (ground arith)

-- Values of the format's types are packed to as many bytes as `calcsize` says, and whatever bytes
-- follow, unpacking with the same format gives the values back.
pub payload_roundtrip :
    (form : Form) (vs : List Value) (rest : List ℕ)
    → HasTypes form vs
    → (bs : List ℕ) × (pack_payload form vs ≡ ok bs)
      × (length bs ≡ calcsize form)
      × (unpack_payload form (bs ++ rest) ≡ ok vs)
unfolding pack_payload unpack_payload calcsize
payload_roundtrip [] [] rest typed = ([], refl, refl, refl)
payload_roundtrip (t ∷ ts) (v ∷ vs) rest typed =
    let (bs, p, l, u) = token_roundtrip t v typed.0 in
    let (more, p', l', u') = payload_roundtrip ts vs rest typed.1 in
    let here = unpack_field-append t bs (more ++ rest) l ∙ u in
    let behind : drop (token_size t) (bs ++ (more ++ rest)) ≡ more ++ rest =
      rw (← l) (drop-append bs (more ++ rest)) in
    (bs ++ more, rw (p, p'), rw length-append (omega arith), rw (append_assoc, here, behind, u'))
payload_roundtrip [] (v ∷ vs) rest typed = absurd typed
payload_roundtrip (t ∷ ts) [] rest typed = absurd typed

-- `deserialize_data` on what `send_request` packs.
pub deserialize_data-pack :
    (t : Token) (ts : Form) (vs : List Value) (rest : List ℕ)
    → HasTypes (t ∷ ts) vs
    → (bs : List ℕ) × (pack_payload (t ∷ ts) vs ≡ ok bs)
      × (length bs ≡ calcsize (t ∷ ts))
      × (deserialize_data (bs ++ rest) (t ∷ ts) ≡ ok (returned vs))
unfolding deserialize_data
deserialize_data-pack t ts vs rest typed =
    let (bs, p, l, u) = payload_roundtrip (t ∷ ts) vs rest typed in (bs, p, l, rw u)
