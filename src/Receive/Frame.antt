-- ===== src/Receive/Frame.antt =====
-- Cutting the stream: one round of the inner loop, in each of its cases.
use lufthansa.Base.{
  ℕ, zero, suc, ◌≤◌, ◌<◌, ◌≡◌, refl, ap, ap₂, sym, ◌∙◌, ◌⊎◌, inl, inr, List, [], ◌∷◌, ◌++◌, true,
  false, Bool-cases, Option, none, some, length, take, drop, length-append, arith, Result, ok, err,
  Exception, ltb, ◌>>◌,
}
use lufthansa.Wire.{get_length_from_data, unpack_exact, unpack_uint}
use lufthansa.State.{Connection, Packet, Method}
use lufthansa.Receive.{handle_response, next_length, frame}
use lufthansa.Receive.Route.{handle_response-nil}

-- With the fifth byte there, the length is known, and later bytes do not change it.
pub get_length-long :
    (pending : List ℕ)
    → 5 ≤ length pending
    → (len : ℕ) × (get_length_from_data pending ≡ ok len)
      × ((more : List ℕ) → get_length_from_data (pending ++ more) ≡ ok len)
unfolding get_length_from_data unpack_exact
get_length-long [] long = absurd (omega arith)
get_length-long (a ∷ []) long = absurd (omega arith)
get_length-long (a ∷ b ∷ []) long = absurd (omega arith)
get_length-long (a ∷ b ∷ c ∷ []) long = absurd (omega arith)
get_length-long (a ∷ b ∷ c ∷ d ∷ []) long = absurd (omega arith)
get_length-long (a ∷ b ∷ c ∷ d ∷ n ∷ r) long = (unpack_uint (n ∷ []), refl, λ more. refl)

-- A packet is there in full.
abbrev pub IsWhole : List ℕ → ℕ → Type 0
IsWhole pending len =
    (8 ≤ length pending) × (len ≤ length pending) × (get_length_from_data pending ≡ ok len)

-- The head of the pending bytes is incomplete, or a packet that is there in full.
pub next_length-cases :
    (pending : List ℕ)
    → (next_length pending ≡ ok none)
      ⊎ ((len : ℕ) × (next_length pending ≡ ok (some len)) × IsWhole pending len)
unfolding next_length
next_length-cases pending = elim (Bool-cases (ltb (length pending) 8)) [
  | inl short ↦ inl (ground arith)
  | inr long ↦
      let (len, known, _) = get_length-long pending (ground arith) in
      elim (Bool-cases (ltb (length pending) len)) [
        | inl missing ↦ inl (ground arith)
        | inr there ↦ inr (len, ground arith, (ground arith, ground arith, known))
      ]
]

pub next_length-short : (pending : List ℕ) → length pending < 8 → next_length pending ≡ ok none
unfolding next_length
next_length-short pending short = ground arith

pub next_length-whole :
    (pending : List ℕ) (len : ℕ) → IsWhole pending len → next_length pending ≡ ok (some len)
unfolding next_length
next_length-whole pending len whole = ground arith

pub next_length-append :
    (a b : List ℕ) (len : ℕ) → IsWhole a len → next_length (a ++ b) ≡ ok (some len)
next_length-append a b len whole =
    let (n, known, still) = get_length-long a (omega arith) in
    next_length-whole (a ++ b) len (
      omega (arith, length-append a b),
      omega (arith, length-append a b),
      still b ∙ sym known ∙ whole.2,
    )

-- One round of the loop, in each of its cases.
module _ (fuel : ℕ) (pending : List ℕ) (s : Connection) where
  pub frame-stopped : s.receive_flag ≡ false → frame (suc fuel) pending s ≡ (ok (some pending), s)
  unfolding frame
  frame-stopped stopped = rw stopped

  pub frame-wait :
      next_length pending ≡ ok none → frame (suc fuel) pending s ≡ (ok (some pending), s)
  unfolding frame
  frame-wait short = elim (Bool-cases s.receive_flag) [
    | inl running ↦ rw (running, short)
    | inr stopped ↦ rw stopped
  ]

  frame-packet :
      (len : ℕ)
      → s.receive_flag ≡ true
      → next_length pending ≡ ok (some len)
      → frame (suc fuel) pending s
        ≡ (handle_response (take len pending) >> frame fuel (drop len pending)) s
  unfolding frame
  frame-packet len running whole = rw (running, whole)

-- A packet that has been handled had a byte at least.
pub handled-pos :
    (pending : List ℕ) (len : ℕ) (s : Connection)
    → (handle_response (take len pending) s).0 ≡ ok tt
    → 0 < len
handled-pos pending zero s handled = cc (handle_response-nil s)
handled-pos pending (suc len) s handled = omega arith

module _ {A : Type 0} (m : Method (Unit {0})) (k : Method A) (s : Connection) where
  pub then_ok : (m s).0 ≡ ok tt → (m >> k) s ≡ k (m s).1
  then_ok done = rw done

  pub then_err : (e : Exception) → (m s).0 ≡ err e → (m >> k) s ≡ (err e, (m s).1)
  then_err e failed = rw failed

-- The rounds of the loop on a packet that is there in full.
module _ (fuel : ℕ) (pending : List ℕ) (s : Connection) (len : ℕ) where
  abbrev head : Packet
  head = take len pending

  abbrev after : Connection
  after = (handle_response head s).1

  pub frame-next :
      s.receive_flag ≡ true
      → next_length pending ≡ ok (some len)
      → (handle_response head s).0 ≡ ok tt
      → frame (suc fuel) pending s ≡ frame fuel (drop len pending) after
  frame-next running whole handled =
      frame-packet fuel pending s len running whole
      ∙ then_ok (handle_response head) (frame fuel (drop len pending)) s handled

  pub frame-raise :
      (e : Exception)
      → s.receive_flag ≡ true
      → next_length pending ≡ ok (some len)
      → (handle_response head s).0 ≡ err e
      → frame (suc fuel) pending s ≡ (err e, after)
  frame-raise e running whole failed =
      frame-packet fuel pending s len running whole
      ∙ then_err (handle_response head) (frame fuel (drop len pending)) s e failed

-- The same with the packet and the rest named.
module _ (fuel : ℕ) (pending : List ℕ) (s : Connection) (len : ℕ) (p : Packet) (rest : List ℕ)
    (front : take len pending ≡ p) (back : drop len pending ≡ rest)
    (running : s.receive_flag ≡ true) (whole : next_length pending ≡ ok (some len)) where
  pub cut-next :
      (handle_response p s).0 ≡ ok tt
      → frame (suc fuel) pending s ≡ frame fuel rest (handle_response p s).1
  cut-next done =
      let continue_with : Packet → List ℕ → Result (Option (List ℕ)) × Connection =
        λ q r. frame fuel r (handle_response q s).1 in
      frame-next fuel pending s len running whole (rw front done) ∙ ap₂ continue_with front back

  pub cut-raise :
      (e : Exception)
      → (handle_response p s).0 ≡ err e
      → frame (suc fuel) pending s ≡ (err e, (handle_response p s).1)
  cut-raise e failed =
      let raised_by : Packet → Result (Option (List ℕ)) × Connection =
        λ q. (err e, (handle_response q s).1) in
      frame-raise fuel pending s len e running whole (rw front failed) ∙ ap raised_by front
