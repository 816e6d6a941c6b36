-- ===== src/Device/Flags.antt =====
-- The response expected flags: getters and callbacks are fixed, setters can be switched.
use lufthansa.Base.{
  ℕ, zero, suc, ◌<◌, ◌≡◌, ◌≢◌, refl, ap, sym, ◌⊎◌, inl, inr, Option-cases, List, [], ◌∷◌, Bool,
  some, length, get_elem?, set, map, ℤ, pos, negsuc, ok, err, value_error, arith,
  get_elem?-set_self, get_elem?-set_ne,
}
use lufthansa.State.{Flag, always_true, always_false, set_true, set_false, Device}
use lufthansa.Device.{
  is_expected, get_response_expected, chosen, choose, set_response_expected,
  set_response_expected_all,
}

-- A flag is read only inside the table.
get_elem?-lt :
    (flags : List Flag) (n : ℕ) (flag : Flag) → get_elem? flags n ≡ some flag → n < length flags
get_elem?-lt [] n flag e = cc
get_elem?-lt (x ∷ xs) zero flag e = omega arith
get_elem?-lt (x ∷ xs) (suc n) flag e = omega (arith, get_elem?-lt xs n flag e)

get_elem?-map :
    (f : Flag → Flag) (flags : List Flag) (n : ℕ) (flag : Flag)
    → get_elem? flags n ≡ some flag
    → get_elem? (map f flags) n ≡ some (f flag)
get_elem?-map f [] n flag e = cc
get_elem?-map f (x ∷ xs) zero flag e = cc
get_elem?-map f (x ∷ xs) (suc n) flag e = get_elem?-map f xs n flag e

-- What a successful call writes: the table held a flag that may change, at an id in range.
set_response_expected-eq_ok :
    (d d' : Device) (n : ℕ) (b : Bool)
    → set_response_expected d (pos n) b ≡ ok d'
    → (n < length d.response_expected)
      × (d'.response_expected ≡ set d.response_expected n (chosen b))
unfolding set_response_expected
set_response_expected-eq_ok d d' n b e = elim (Option-cases (get_elem? d.response_expected n)) [
  | inl missing ↦ ground arith
  | inr (flag, found) ↦ ground (arith, get_elem?-lt d.response_expected n flag found)
]

get_response_expected-chosen :
    (d : Device) (n : ℕ) (b : Bool)
    → get_elem? d.response_expected n ≡ some (chosen b)
    → get_response_expected d (pos n) ≡ ok b
unfolding get_response_expected
get_response_expected-chosen d n b e = ground arith

get_response_expected-congr :
    (d d' : Device) (m : ℕ)
    → get_elem? d'.response_expected m ≡ get_elem? d.response_expected m
    → get_response_expected d' (pos m) ≡ get_response_expected d (pos m)
unfolding get_response_expected
get_response_expected-congr d d' m e = rw e

set_response_expected-others :
    (d d' : Device) (n : ℕ) (b : Bool) (m : ℤ)
    → d'.response_expected ≡ set d.response_expected n (chosen b)
    → m ≢ pos n
    → get_response_expected d' m ≡ get_response_expected d m
set_response_expected-others d d' n b (negsuc m) writes ne = unfold get_response_expected in refl
set_response_expected-others d d' n b (pos m) writes ne =
    get_response_expected-congr d d' m
      (rw writes (get_elem?-set_ne d.response_expected n m (chosen b) (λ p. ne (ap pos (sym p)))))

-- A successful `set_response_expected` is read back by `get_response_expected`, and changes the
-- answer for no other function id.
pub get-set_response_expected :
    (d d' : Device) (n m : ℤ) (b : Bool)
    → set_response_expected d n b ≡ ok d'
    → m ≢ n
    → (get_response_expected d' n ≡ ok b) × (get_response_expected d' m ≡ get_response_expected d m)
get-set_response_expected d d' (negsuc n) m b e ne = unfold set_response_expected in cc
get-set_response_expected d d' (pos n) m b e ne =
    let (fits, writes) = set_response_expected-eq_ok d d' n b e in
    (
      get_response_expected-chosen d' n b
          (rw writes (get_elem?-set_self d.response_expected n (chosen b) fits)),
      set_response_expected-others d d' n b m writes ne,
    )

-- A function whose flag is fixed cannot be switched, whatever is asked: getters stay expecting a
-- response, callbacks stay without one.
pub fixed_flags :
    (d : Device) (n : ℕ) (b : Bool) (flag : Flag)
    → get_elem? d.response_expected n ≡ some flag
    → (flag ≡ always_true) ⊎ (flag ≡ always_false)
    → (set_response_expected d (pos n) b ≡ err value_error)
      × (get_response_expected d (pos n) ≡ ok (is_expected flag))
      × (get_response_expected (set_response_expected_all d b) (pos n) ≡ ok (is_expected flag))
unfolding set_response_expected get_response_expected set_response_expected_all
fixed_flags d n b flag found fixed =
    ground (arith, get_elem?-map (choose b) d.response_expected n flag found)

-- Every setter takes the answer that `set_response_expected_all` is given.
pub set_response_expected_all-setters :
    (d : Device) (n : ℕ) (b : Bool) (flag : Flag)
    → get_elem? d.response_expected n ≡ some flag
    → (flag ≡ set_true) ⊎ (flag ≡ set_false)
    → get_response_expected (set_response_expected_all d b) (pos n) ≡ ok b
unfolding get_response_expected set_response_expected_all
set_response_expected_all-setters d n b flag found setter =
    ground (arith, get_elem?-map (choose b) d.response_expected n flag found)
