-- ===== src/Scripts/Number.antt =====
-- Python's `int(text)` for the ASCII texts of a command line, and its list index, for the scripts.
use lufthansa.Base.{
  ℕ, zero, suc, ◌+◌, ◌-◌, ◌*◌, List, [], ◌∷◌, Bool, ◌&&◌, ◌||◌, ltb, leb, ◌==◌, if◌then◌else◌,
  Option, none, some, length, get_elem?, reverse, ℤ, pos, negsuc, Result, ok, err, value_error,
  index_error,
}

-- str.isspace on ASCII
abbrev is_space : ℕ → Bool
is_space c = leb 9 c && leb c 13 || leb 28 c && leb c 32

abbrev lstrip : List ℕ → List ℕ
lstrip [] = []
lstrip (c ∷ cs) = if is_space c then lstrip cs else c ∷ cs

abbrev strip : List ℕ → List ℕ
strip cs = reverse (lstrip (reverse (lstrip cs)))

abbrev is_digit : ℕ → Bool
is_digit c = leb 48 c && leb c 57

-- The number that a run of digits continues.
abbrev pub digits_from : ℕ → List ℕ → Option ℕ
digits_from n [] = some n
digits_from n (c ∷ cs) =
    let rest = digits_from (n * 10 + (c - 48)) cs in if is_digit c then rest else none

-- There is a digit at least.
abbrev digits : List ℕ → Option ℕ
digits [] = none
digits (c ∷ cs) = digits_from 0 (c ∷ cs)

abbrev pub negated : ℕ → ℤ
negated zero = pos 0
negated (suc n) = negsuc n

abbrev number_or_raise : (ℕ → ℤ) → Option ℕ → Result ℤ
number_or_raise sign none = err value_error
number_or_raise sign (some n) = ok (sign n)

abbrev signed : List ℕ → Result ℤ
signed [] = err value_error
signed (c ∷ cs) =
    if c == 43
    then number_or_raise pos (digits cs)
    else if c == 45
    then number_or_raise negated (digits cs)
    else number_or_raise pos (digits (c ∷ cs))

-- int(text)
unfoldable pub int_of : List ℕ → Result ℤ
int_of text = signed (strip text)

-- i - 1
abbrev pub pred : ℤ → ℤ
pred (pos zero) = negsuc 0
pred (pos (suc n)) = pos n
pred (negsuc n) = negsuc (suc n)

abbrev or_raise {ℓ} : {A : Type ℓ} → Option A → Result A
or_raise none = err index_error
or_raise (some a) = ok a

-- items[i]: a negative index counts from the end.
unfoldable pub item {ℓ} : {A : Type ℓ} → List A → ℤ → Result A
item items (pos n) = or_raise (get_elem? items n)
item items (negsuc n) =
    if ltb n (length items)
    then or_raise (get_elem? items (length items - 1 - n))
    else err index_error
