-- ===== src/Base58.antt =====
-- scripts/tinkerforge/ip_connection.py, BASE58, base58encode and base58decode: the text form of a
-- uid. A text is the list of its character codes. The numbers that the program encodes are uids,
-- which are not negative.
pub mod RoundTrip
pub mod Place
use mathlib.Core.Logic.{dite}
use mathlib.Core.WellFounded.{Acc}
use native.Mathlib.Decide.{dec_lt}
use lufthansa.Base.{
  ℕ, zero, suc, ◌+◌, ◌*◌, ◌/◌, ◌%◌, ◌<◌, ◌==◌, if◌then◌else◌, List, [], ◌∷◌, reverse, get_or,
  String, codes, Option, none, some, Result, ok, err, value_error, bind, arith,
}
use lufthansa.Base.Tests.{lt_wf}

abbrev pub alphabet : List ℕ
alphabet = codes "123456789abcdefghijkmnopqrstuvwxyzABCDEFGHJKLMNPQRSTUVWXYZ"

-- BASE58[i]; the callers pass an index below 58.
unfoldable pub symbol : ℕ → ℕ
symbol i = get_or alphabet i 0

-- `list.index` from the position `at` on.
unfoldable pub index_from : ℕ → List ℕ → ℕ → Option ℕ
index_from at [] c = none
index_from at (x ∷ xs) c = let later = index_from (at + 1) xs c in if x == c then some at else later

abbrev pub found_or_raise : Option ℕ → Result ℕ
found_or_raise none = err value_error
found_or_raise (some i) = ok i

-- BASE58.index(c)
unfoldable pub column_of : ℕ → Result ℕ
unfolding index_from
column_of c = found_or_raise (index_from 0 alphabet c)

pub quotient_shrinks : (v : ℕ) → 57 < v → v / 58 < v
quotient_shrinks v h = omega arith

-- `while value >= 58`
unfoldable pub encode_loop : List ℕ → (value : ℕ) → Acc ◌<◌ value → List ℕ
encode_loop encoded value (Acc.intro _ smaller) =
    dite (dec_lt 57 value)
      (λ more.
        encode_loop (symbol (value % 58) ∷ encoded) (value / 58)
          (smaller _ (quotient_shrinks value more)))
      (λ _. symbol value ∷ encoded)

unfoldable pub base58encode : ℕ → List ℕ
unfolding encode_loop symbol lt_wf dec_lt
base58encode value = encode_loop [] value (lt_wf.apply value)

-- `for c in encoded[::-1]`
unfoldable pub decode_loop : List ℕ → ℕ → ℕ → Result ℕ
decode_loop [] value column_multiplier = ok value
decode_loop (c ∷ cs) value column_multiplier =
    bind (column_of c)
      λ column. decode_loop cs (value + column * column_multiplier) (column_multiplier * 58)

unfoldable pub base58decode : List ℕ → Result ℕ
unfolding decode_loop column_of
base58decode encoded = decode_loop (reverse encoded) 0 1
