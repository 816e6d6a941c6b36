-- ===== src/Bindings/Sound.antt =====
-- The tables of the device classes, checked as a whole.
use lufthansa.Base.{
  ℕ, ◌+◌, ◌≤◌, ◌≡◌, refl, inl, List, [], ◌∷◌, Bool, true, false, ◌&&◌, leb, ◌==◌, Option, none,
  some, length, get_elem?, ok, err, value_error, pos, arith,
}
use lufthansa.Format.{Form, calcsize}
use lufthansa.State.{Device, Flag, invalid_function_id, always_true}
use lufthansa.Device.{
  blank_device, initial_flags, get_response_expected, set_response_expected,
  set_response_expected_all,
}
use lufthansa.Device.Flags.{fixed_flags}
use lufthansa.Bindings.{fill, set_flags}
use lufthansa.Bindings.Class.{Function, Binding}
use lufthansa.Bindings.Devices.{bindings}

-- A member of a list.
pub data In {A : Type 0} (x : A) : List A → Type 0 where
  here : (xs : List A) → In x (x ∷ xs)
  there : (y : A) (xs : List A) → In x xs → In x (y ∷ xs)

abbrev every : {A : Type 0} → (A → Bool) → List A → Bool
every test [] = true
every test (x ∷ xs) = test x && every test xs

every-In :
    {A : Type 0} (test : A → Bool) (x : A) (xs : List A)
    → every test xs ≡ true
    → In x xs
    → test x ≡ true
every-In test x _ holds (here xs) = ground arith
every-In test x _ holds (there y xs i) = every-In test x xs (ground arith) i

abbrev pub has_result : Form → Bool
has_result [] = false
has_result (t ∷ ts) = true

-- A function with a result always expects a response, and the function id of any other is known.
abbrev flag_fits : Bool → Option Flag → Bool
flag_fits result (some always_true) = true
flag_fits result none = false
flag_fits result (some invalid_function_id) = false
flag_fits true _ = false
flag_fits false _ = true

abbrev fields_fit : Option ℕ → Form → Bool
fields_fit none form = true
fields_fit (some n) form = n == length form

abbrev function_fits : List Flag → Function → Bool
function_fits flags f =
    flag_fits (has_result f.form_ret) (get_elem? flags f.function_id)
    && (f.arity == length f.form)
    && leb (8 + calcsize f.form) 80
    && leb (8 + calcsize f.form_ret) 80
    && fields_fit f.fields f.form_ret

abbrev binding_fits : Binding → Bool
binding_fits b = every (function_fits (set_flags b.flags initial_flags)) b.functions

bindings_fit : every binding_fits bindings ≡ true
unfolding initial_flags calcsize
bindings_fit = refl

-- The flags of a new device object of a class.
abbrev pub new_device : Binding → ℕ → Device
new_device b uid = fill b (blank_device uid)

module _ (b : Binding) (f : Function) (listed : In b bindings) (method : In f b.functions) where
  fits : function_fits (set_flags b.flags initial_flags) f ≡ true
  fits = every-In _ f b.functions (every-In binding_fits b bindings bindings_fit listed) method

  new_flags : (uid : ℕ) → (new_device b uid).response_expected ≡ set_flags b.flags initial_flags
  unfolding fill blank_device
  new_flags uid = refl

  flag_always_true :
      has_result f.form_ret ≡ true
      → get_elem? (set_flags b.flags initial_flags) f.function_id ≡ some always_true
  flag_always_true result = ground (arith, fits)

  -- Every method with a result, of every class: a new device object expects a response for
  -- it, `set_response_expected` refuses to change that, and `set_response_expected_all` leaves it.
  pub getters_expect_responses :
      (uid : ℕ) (asked : Bool)
      → has_result f.form_ret ≡ true
      → (get_response_expected (new_device b uid) (pos f.function_id) ≡ ok true)
        × (set_response_expected (new_device b uid) (pos f.function_id) asked ≡ err value_error)
        × (get_response_expected
              (set_response_expected_all (new_device b uid) asked)
              (pos f.function_id)
            ≡ ok true)
  getters_expect_responses uid asked result =
      let (fixed, gets, stays) =
        fixed_flags (new_device b uid) f.function_id asked always_true
          (rw (new_flags uid) (flag_always_true result)) (inl refl) in
      (gets, fixed, stays)

  -- Every method of every class: it hands over one argument for each token of its format,
  -- and its request and its response, the eight byte header included, have at most 80 bytes.
  pub requests_fit :
      (f.arity ≡ length f.form) × (8 + calcsize f.form ≤ 80) × (8 + calcsize f.form_ret ≤ 80)
  requests_fit = (ground (arith, fits), ground (arith, fits), ground (arith, fits))
