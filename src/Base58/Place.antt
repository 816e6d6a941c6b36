-- ===== src/Base58/Place.antt =====
-- What base58decode computes, against the place values of the symbols.
use mathlib.Core.List.{reverse-append}
use lufthansa.Base.{
  ℕ, ◌+◌, ◌*◌, ◌^◌, ◌≡◌, refl, ap, ◌∙◌, List, [], ◌∷◌, ◌++◌, reverse, length, length-append,
  append_assoc, ok, err, value_error, arith, pow_suc, ◌⊎◌, inl, inr, Option-cases,
}
use lufthansa.Base58.{column_of, index_from, alphabet, decode_loop, base58decode}

-- The digits that the characters of a text stand for.
abbrev pub Columns : List ℕ → List ℕ → Type 0
Columns [] [] = Unit
Columns (c ∷ cs) (d ∷ ds) = (column_of c ≡ ok d) × Columns cs ds
Columns _ _ = ⊥

-- The number with these digits to the base 58, the most significant first.
abbrev pub place : List ℕ → ℕ
place [] = 0
place (d ∷ ds) = d * 58 ^ length ds + place ds

-- The same, the least significant first.
abbrev little : List ℕ → ℕ
little [] = 0
little (d ∷ ds) = d + 58 * little ds

little-snoc : (ds : List ℕ) (d : ℕ) → little (ds ++ (d ∷ [])) ≡ little ds + d * 58 ^ length ds
little-snoc [] d = omega arith
little-snoc (e ∷ ds) d =
    omega (arith, little-snoc ds d, ap (λ (t : ℕ). d * t) (pow_suc 58 (length ds)))

reverse-cons : (d : ℕ) (ds : List ℕ) → reverse (d ∷ ds) ≡ reverse ds ++ (d ∷ [])
reverse-cons d ds = reverse-append (d ∷ []) ds

length-reverse : (ds : List ℕ) → length (reverse ds) ≡ length ds
length-reverse [] = refl
length-reverse (d ∷ ds) =
    rw (reverse-cons d ds) (omega (arith, length-append (reverse ds) (d ∷ []), length-reverse ds))

little-reverse : (ds : List ℕ) → little (reverse ds) ≡ place ds
little-reverse [] = refl
little-reverse (d ∷ ds) =
    rw (reverse-cons d ds)
      (little-snoc (reverse ds) d ∙ rw (length-reverse ds, little-reverse ds) (omega arith))

Columns-append :
    (cs ds es fs : List ℕ) → Columns cs ds → Columns es fs → Columns (cs ++ es) (ds ++ fs)
Columns-append [] [] es fs p q = q
Columns-append [] (d ∷ ds) es fs p q = absurd p
Columns-append (c ∷ cs) [] es fs p q = absurd p
Columns-append (c ∷ cs) (d ∷ ds) es fs p q = (p.0, Columns-append cs ds es fs p.1 q)

Columns-reverse : (cs ds : List ℕ) → Columns cs ds → Columns (reverse cs) (reverse ds)
Columns-reverse [] [] p = tt
Columns-reverse [] (d ∷ ds) p = absurd p
Columns-reverse (c ∷ cs) [] p = absurd p
Columns-reverse (c ∷ cs) (d ∷ ds) p =
    rw (reverse-cons c cs, reverse-cons d ds)
      (Columns-append (reverse cs) (reverse ds) (c ∷ []) (d ∷ []) (Columns-reverse cs ds p.1)
        (p.0, tt))

decode_loop-little :
    (cs ds : List ℕ) (v m : ℕ) → Columns cs ds → decode_loop cs v m ≡ ok (v + little ds * m)
unfolding decode_loop
decode_loop-little [] [] v m p = ap ok (omega arith)
decode_loop-little [] (d ∷ ds) v m p = absurd p
decode_loop-little (c ∷ cs) [] v m p = absurd p
decode_loop-little (c ∷ cs) (d ∷ ds) v m p =
    rw (p.0) (decode_loop-little cs ds (v + d * m) (m * 58) p.1 ∙ ap ok (grind arith))

-- A text over the alphabet is decoded to the number that its symbols are the digits of.
pub base58decode-place :
    (text digits : List ℕ) → Columns text digits → base58decode text ≡ ok (place digits)
unfolding base58decode
base58decode-place text digits p =
    decode_loop-little (reverse text) (reverse digits) 0 1 (Columns-reverse text digits p)
    ∙ rw (little-reverse digits) (ap ok (omega arith))

column_of-cases : (c : ℕ) → ((d : ℕ) × (column_of c ≡ ok d)) ⊎ (column_of c ≡ err value_error)
unfolding column_of
column_of-cases c = elim (Option-cases (index_from 0 alphabet c)) [
  | inl missing ↦ inr (rw missing)
  | inr (d, found) ↦ inl (d, rw found)
]

decode_loop-refused :
    (cs es : List ℕ) (c v m : ℕ)
    → column_of c ≡ err value_error
    → decode_loop (cs ++ (c ∷ es)) v m ≡ err value_error
unfolding decode_loop
decode_loop-refused [] es c v m bad = rw bad
decode_loop-refused (b ∷ cs) es c v m bad = elim (column_of-cases b) [
  | inl (d, good) ↦ rw good (decode_loop-refused cs es c (v + d * m) (m * 58) bad)
  | inr worse ↦ rw worse
]

-- A text with a character outside of the alphabet, wherever it stands, is refused.
pub base58decode-refused :
    (before behind : List ℕ) (c : ℕ)
    → column_of c ≡ err value_error
    → base58decode (before ++ (c ∷ behind)) ≡ err value_error
unfolding base58decode
base58decode-refused before behind c bad =
    rw
      (
        reverse-append before (c ∷ behind),
        reverse-cons c behind,
        append_assoc (reverse behind) (c ∷ []) (reverse before),
      )
      (decode_loop-refused (reverse behind) (reverse before) c 0 1 bad)
