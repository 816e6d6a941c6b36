-- ===== src/Wire/Bytes.antt =====
-- Little-endian numbers: what `pack_uint` writes, `unpack_uint` reads back, at every width.
use lufthansa.Base.{
  ℕ, zero, suc, ◌+◌, ◌*◌, ◌/◌, ◌%◌, ◌^◌, ◌<◌, ◌≡◌, refl, ap, List, [], ◌∷◌, length, All, arith, ok,
  pow_suc, pow_suc_lt,
}
use lufthansa.Wire.{IsByte, pack_uint, unpack_uint, pack_exact, unpack_exact}

pub length-pack_uint : (w n : ℕ) → length (pack_uint w n) ≡ w
unfolding pack_uint
length-pack_uint zero n = refl
length-pack_uint (suc w) n = ap suc (length-pack_uint w (n / 256))

pub pack_uint-IsByte : (w n : ℕ) → All IsByte (pack_uint w n)
unfolding pack_uint
pack_uint-IsByte zero n = tt
pack_uint-IsByte (suc w) n = (omega arith, pack_uint-IsByte w (n / 256))

pub unpack_uint-pack_uint : (w n : ℕ) → n < 256 ^ w → unpack_uint (pack_uint w n) ≡ n
unfolding pack_uint unpack_uint
unpack_uint-pack_uint zero n h = omega arith
unpack_uint-pack_uint (suc w) n h =
    omega (arith, unpack_uint-pack_uint w (n / 256) (pow_suc_lt w n h))

pub unpack_uint-lt : (bs : List ℕ) → All IsByte bs → unpack_uint bs < 256 ^ length bs
unfolding unpack_uint
unpack_uint-lt [] h = omega arith
unpack_uint-lt (b ∷ bs) h = omega (arith, unpack_uint-lt bs h.1, pow_suc 256 (length bs))

pub pack_uint-unpack_uint :
    (bs : List ℕ) → All IsByte bs → pack_uint (length bs) (unpack_uint bs) ≡ bs
unfolding pack_uint unpack_uint
pack_uint-unpack_uint [] h = refl
pack_uint-unpack_uint (b ∷ bs) h =
    let low : (b + 256 * unpack_uint bs) % 256 ≡ b = omega arith in
    let high : (b + 256 * unpack_uint bs) / 256 ≡ unpack_uint bs = omega arith in
    rw (low, high) (ap (λ (l : List ℕ). b ∷ l) (pack_uint-unpack_uint bs h.1))

-- Packing succeeds exactly in range, and then reads back.
pub pack_exact_lem : (w n : ℕ) → n < 256 ^ w → pack_exact w n ≡ ok (pack_uint w n)
unfolding pack_exact
pack_exact_lem w n h = ground arith

pub unpack_exact-pack_uint : (w n : ℕ) → n < 256 ^ w → unpack_exact w (pack_uint w n) ≡ ok n
unfolding unpack_exact
unpack_exact-pack_uint w n h = ground (arith, length-pack_uint w n, unpack_uint-pack_uint w n h)
