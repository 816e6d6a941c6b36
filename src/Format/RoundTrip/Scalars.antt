-- ===== src/Format/RoundTrip/Scalars.antt =====
-- One element of each code, and a run of them.
use lufthansa.Base.{
  ℕ, suc, ◌-◌, ◌*◌, ◌^◌, ◌<◌, ◌≡◌, ◌≢◌, refl, ap, sym, ◌∙◌, List, [], ◌∷◌, ◌++◌, length, All,
  Result, ok, arith, length-append, take-append, drop-append, ℤ, pos, negsuc, true, false,
}
use lufthansa.Wire.{pack_uint, unpack_uint, pack_exact}
use lufthansa.Wire.Bytes.{length-pack_uint, unpack_uint-pack_uint}
use lufthansa.Format.{
  Code, ch, str, u8, i8, u16, i16, u32, i32, u64, i64, f32, flag, Scalar, int, boolean, char, real,
  size,
}
use lufthansa.Format.Pack.{pack_int, pack_scalar, pack_scalars}
use lufthansa.Format.Unpack.{unpack_int, unpack_scalar, unpack_scalars}
use lufthansa.Format.Typing.{InUnsigned, InSigned, Fits}

-- A packed element: its bytes, how many they are, and what they unpack to.
abbrev pub Packs : Code → Result (List ℕ) → Scalar → Type 0
Packs k r x = (bs : List ℕ) × (r ≡ ok bs) × (length bs ≡ size k) × (unpack_scalar k bs ≡ x)

int_roundtrip :
    (w : ℕ) (z : ℤ)
    → InSigned w (int z)
    → (bs : List ℕ) × (pack_int w z ≡ ok bs) × (length bs ≡ w) × (unpack_int w bs ≡ z)
unfolding pack_int unpack_int
int_roundtrip w (pos n) h =
    (pack_uint w n, ground arith, length-pack_uint w n, ground (arith, unpack_uint-pack_uint w n))
int_roundtrip w (negsuc n) h = (
  pack_uint w (256 ^ w - suc n),
  ground arith,
  length-pack_uint w (256 ^ w - suc n),
  ground (arith, unpack_uint-pack_uint w (256 ^ w - suc n)),
)

uint_roundtrip :
    (w n : ℕ)
    → n < 256 ^ w
    → (bs : List ℕ) × (pack_exact w n ≡ ok bs) × (length bs ≡ w) × (unpack_uint bs ≡ n)
unfolding pack_exact
uint_roundtrip w n h =
    (pack_uint w n, ground arith, length-pack_uint w n, unpack_uint-pack_uint w n h)

abbrev Unsigned : Code → ℕ → Type 0
Unsigned k w =
    (n : ℕ)
    → (pack_scalar k (int (pos n)) ≡ pack_exact w n)
      × (size k ≡ w)
      × ((bs : List ℕ) → unpack_scalar k bs ≡ int (pos (unpack_uint bs)))

Unsigned-roundtrip :
    (k : Code) (w : ℕ) (x : Scalar) → Unsigned k w → InUnsigned w x → Packs k (pack_scalar k x) x
Unsigned-roundtrip k w (int (pos n)) at fits =
    let (bs, p, l, u) = uint_roundtrip w n fits in
    (bs, (at n).0 ∙ p, l ∙ sym (at n).1, (at n).2 bs ∙ ap (λ (m : ℕ). int (pos m)) u)
Unsigned-roundtrip k w (int (negsuc n)) at fits = absurd fits
Unsigned-roundtrip k w (boolean v) at fits = absurd fits
Unsigned-roundtrip k w (char v) at fits = absurd fits
Unsigned-roundtrip k w (real v) at fits = absurd fits

abbrev Signed : Code → ℕ → Type 0
Signed k w =
    (z : ℤ)
    → (pack_scalar k (int z) ≡ pack_int w z)
      × (size k ≡ w)
      × ((bs : List ℕ) → unpack_scalar k bs ≡ int (unpack_int w bs))

Signed-roundtrip :
    (k : Code) (w : ℕ) (x : Scalar) → Signed k w → InSigned w x → Packs k (pack_scalar k x) x
Signed-roundtrip k w (int z) at fits =
    let (bs, p, l, u) = int_roundtrip w z fits in
    (bs, (at z).0 ∙ p, l ∙ sym (at z).1, (at z).2 bs ∙ ap int u)
Signed-roundtrip k w (boolean v) at fits = absurd fits
Signed-roundtrip k w (char v) at fits = absurd fits
Signed-roundtrip k w (real v) at fits = absurd fits

pub scalar_roundtrip : (k : Code) (x : Scalar) → k ≢ ch → Fits k x → Packs k (pack_scalar k x) x
unfolding pack_scalar unpack_scalar
scalar_roundtrip ch x ne fits = absurd (ne refl)
scalar_roundtrip str x ne fits = absurd fits
scalar_roundtrip u8 x ne fits = Unsigned-roundtrip u8 1 x (λ n. (refl, refl, λ bs. refl)) fits
scalar_roundtrip u16 x ne fits = Unsigned-roundtrip u16 2 x (λ n. (refl, refl, λ bs. refl)) fits
scalar_roundtrip u32 x ne fits = Unsigned-roundtrip u32 4 x (λ n. (refl, refl, λ bs. refl)) fits
scalar_roundtrip u64 x ne fits = Unsigned-roundtrip u64 8 x (λ n. (refl, refl, λ bs. refl)) fits
scalar_roundtrip i8 x ne fits = Signed-roundtrip i8 1 x (λ n. (refl, refl, λ bs. refl)) fits
scalar_roundtrip i16 x ne fits = Signed-roundtrip i16 2 x (λ n. (refl, refl, λ bs. refl)) fits
scalar_roundtrip i32 x ne fits = Signed-roundtrip i32 4 x (λ n. (refl, refl, λ bs. refl)) fits
scalar_roundtrip i64 x ne fits = Signed-roundtrip i64 8 x (λ n. (refl, refl, λ bs. refl)) fits
scalar_roundtrip f32 (real w) ne fits =
    let (bs, p, l, u) = uint_roundtrip 4 w fits in (bs, p, l, ap real u)
scalar_roundtrip flag (boolean true) ne fits = (1 ∷ [], refl, refl, unfold unpack_uint in refl)
scalar_roundtrip flag (boolean false) ne fits = (0 ∷ [], refl, refl, unfold unpack_uint in refl)
scalar_roundtrip _ x ne fits = absurd fits

-- A run of elements, each of the code's size.
pub scalars_roundtrip :
    (k : Code) (xs : List Scalar)
    → k ≢ ch
    → All (Fits k) xs
    → (bs : List ℕ) × (pack_scalars k xs ≡ ok bs)
      × (length bs ≡ length xs * size k)
      × (unpack_scalars k (length xs) bs ≡ xs)
unfolding pack_scalars unpack_scalars
scalars_roundtrip k [] ne fits = ([], refl, omega arith, refl)
scalars_roundtrip k (x ∷ xs) ne fits =
    let (one, p, l, u) = scalar_roundtrip k x ne fits.0 in
    let (more, p', l', u') = scalars_roundtrip k xs ne fits.1 in
    (
      one ++ more,
      rw (p, p'),
      omega (arith, length-append one more),
      rw (← l, take-append, drop-append, u, u'),
    )
