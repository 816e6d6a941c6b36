-- ===== src/Base58/RoundTrip.antt =====
-- Decoding reads back what encoding writes, and accepts exactly the texts over the alphabet.
use mathlib.Core.Logic.{dif_pos, dif_neg}
use mathlib.Core.List.{reverse-append, append_assoc}
use mathlib.Core.WellFounded.{Acc}
use native.Mathlib.Decide.{dec_lt}
use native.Mathlib.Bridge.{le_prop}
use native.Mathlib.Nat.{div-add-mod}
use lufthansa.Base.Tests.{lt_wf}
use lufthansa.Base.{
  ℕ, zero, suc, ◌+◌, ◌*◌, ◌/◌, ◌%◌, ◌<◌, ◌==◌, ◌≡◌, refl, ap, ◌∙◌, List, [], ◌∷◌, ◌++◌, reverse,
  Bool, true, false, ◌&&◌, ok, err, arith,
}
use lufthansa.Base58.{
  symbol, column_of, encode_loop, base58encode, decode_loop, base58decode, quotient_shrinks,
}

columns_below : ℕ → Bool
columns_below zero = true
columns_below (suc n) = elim (column_of (symbol n)) [
  | ok i ↦ (i == n) && columns_below n
  | err e ↦ false
]

columns_table : columns_below 58 ≡ true
unfolding columns_below column_of symbol
columns_table = refl

columns_below_sound : (n i : ℕ) → columns_below n ≡ true → i < n → column_of (symbol i) ≡ ok i
unfolding columns_below
columns_below_sound zero i e h = absurd (omega arith)
columns_below_sound (suc n) i e h = ground (arith, columns_below_sound n i)

pub column_of-symbol : (i : ℕ) → i < 58 → column_of (symbol i) ≡ ok i
column_of-symbol i h = columns_below_sound 58 i columns_table h

-- What the encoder has written already stays behind what it writes next.
reverse-encode_loop :
    (acc : List ℕ) (v : ℕ) (w : Acc ◌<◌ v)
    → reverse (encode_loop acc v w) ≡ reverse acc ++ reverse (encode_loop [] v w)
unfolding encode_loop
reverse-encode_loop acc v (Acc.intro _ smaller) = elim (dec_lt 57 v) [
  | yes p ↦
      let s = symbol (v % 58) in
      rw (dif_pos (dec_lt 57 v) le_prop p, dif_pos (dec_lt 57 v) le_prop p)
        (reverse-encode_loop (s ∷ acc) (v / 58) (smaller (v / 58) (quotient_shrinks v p))
          ∙ rw (reverse-encode_loop (s ∷ []) (v / 58) (smaller (v / 58) (quotient_shrinks v p)))
              (rw (reverse-append (s ∷ []) acc, append_assoc)))
  | no p ↦
      rw (dif_neg (dec_lt 57 v) p, dif_neg (dec_lt 57 v) p) (reverse-append (symbol v ∷ []) acc)
]

regroup : (v value m : ℕ) → value + v % 58 * m + v / 58 * (m * 58) ≡ value + v * m
regroup v value m = omega (arith, ap (λ (t : ℕ). t * m) (div-add-mod v 58))

decode_loop-encode_loop :
    (v : ℕ) (w : Acc ◌<◌ v) (value m : ℕ)
    → decode_loop (reverse (encode_loop [] v w)) value m ≡ ok (value + v * m)
unfolding encode_loop decode_loop
decode_loop-encode_loop v (Acc.intro _ smaller) value m = elim (dec_lt 57 v) [
  | yes p ↦
      let s = symbol (v % 58) in
      rw
        (
          dif_pos (dec_lt 57 v) le_prop p,
          reverse-encode_loop (s ∷ []) (v / 58) (smaller (v / 58) (quotient_shrinks v p)),
          column_of-symbol (v % 58) (omega arith),
        )
        (decode_loop-encode_loop (v / 58) (smaller (v / 58) (quotient_shrinks v p))
            (value + v % 58 * m) (m * 58)
          ∙ ap ok (regroup v value m))
  | no p ↦ rw (dif_neg (dec_lt 57 v) p, column_of-symbol v (omega arith))
]

-- Every number is read back from its text.
pub base58decode-base58encode : (v : ℕ) → base58decode (base58encode v) ≡ ok v
unfolding base58encode base58decode
base58decode-base58encode v = decode_loop-encode_loop v (lt_wf.apply v) 0 1 ∙ ap ok (omega arith)
