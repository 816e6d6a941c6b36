-- ===== src/Scripts/Led/Shown.antt =====
-- The requests that scripts/led.py makes of the LED strip.
use lufthansa.Base.{
  ℕ, zero, suc, ◌+◌, ◌*◌, ◌-◌, ◌≤◌, ◌<◌, ◌≡◌, List, [], ◌∷◌, ◌++◌, map, false, some, if◌then◌else◌,
  length, take, drop, get_elem?, ℤ, pos, negsuc, arith, bind-eq_ok, ok, All, Bool-cases, inl, inr,
}
use lufthansa.Format.{Value}
use lufthansa.State.{World, Connection}
use lufthansa.Scripts.{column, in_column, rgb, parse_position, truth, is_three, int_argument}
use lufthansa.Scripts.Number.{item, int_of, pred}
use lufthansa.Scripts.Sends.{IsReady, Writes, Shows, Shows-then, skip-Shows, set_rgb-Shows}
use lufthansa.Scripts.Led.{loc_list, turnoff_from, turnoff, toggle_led, toggle_each, opr2, show}

-- The calls that turn groups of ten LEDs off.
abbrev pub clears : ℕ → ℕ → List (List Value)
clears zero i = []
clears (suc rounds) i = rgb (pos (i * 10)) 10 0 0 0 ∷ clears rounds (i + 1)

-- The call that shows the state at a position: four LEDs are green, or off in the state 0.
abbrev pub lit : ℤ → ℕ → List Value
lit state position = rgb (pos position) 4 0 (if truth state then 255 else 0) 0

-- The positions that the texts name, one for each.
abbrev pub Found : List (List ℕ) → List ℕ → Type 0
Found [] [] = Unit
Found (text ∷ texts) (n ∷ ns) = (parse_position loc_list text ≡ ok n) × Found texts ns
Found _ _ = ⊥

get_elem?-All :
    {A : Type 0} (P : A → Type 0) (xs : List A) (i : ℕ) (a : A)
    → All P xs
    → get_elem? xs i ≡ some a
    → P a
get_elem?-All P [] i a all e = cc
get_elem?-All P (x ∷ xs) zero a all e = ground (arith, all)
get_elem?-All P (x ∷ xs) (suc i) a all e = get_elem?-All P xs i a all.1 e

item-All :
    {A : Type 0} (P : A → Type 0) (xs : List A) (i : ℤ) (a : A) → All P xs → item xs i ≡ ok a → P a
unfolding item
item-All P xs (pos n) a all e = get_elem?-All P xs n a all (ground arith)
item-All P xs (negsuc n) a all e = get_elem?-All P xs (length xs - 1 - n) a all (ground arith)

-- The table holds small numbers.
loc_list-small : All (All (λ n. n < 100)) loc_list
loc_list-small = omega arith

parse_position-lt : (text : List ℕ) (n : ℕ) → parse_position loc_list text ≡ ok n → n < 100
unfolding parse_position
parse_position-lt text n e =
    let place : ℤ = column (drop 3 text) in
    let (locations, column_found, found) = bind-eq_ok (item loc_list place) (in_column text) n e in
    let (row, row_read, last) =
      bind-eq_ok (int_of (take 2 text)) (λ r. item locations (pred r)) n found in
    let small =
      item-All (All (λ k. k < 100)) loc_list place locations loc_list-small column_found in
    item-All (λ k. k < 100) locations (pred row) n small last

module _ (world : World) (writes : Writes world) (ls handle : ℕ) where
  turnoff_from-Shows :
      (rounds i : ℕ) (s : Connection)
      → rounds + i ≤ 20
      → IsReady ls handle s
      → Shows ls handle (turnoff_from world ls rounds i) (clears rounds i) s
  unfolding turnoff_from
  turnoff_from-Shows zero i s few ready = skip-Shows ls handle s ready
  turnoff_from-Shows (suc rounds) i s few ready =
      let first =
        set_rgb-Shows world writes ls handle (pos (i * 10)) 10 0 0 0 s (omega arith) ready in
      Shows-then first (turnoff_from-Shows rounds (i + 1) first.after (omega arith) first.ready)

  turnoff-Shows :
      (s : Connection) → IsReady ls handle s → Shows ls handle (turnoff world ls 0) (clears 20 0) s
  unfolding turnoff
  turnoff-Shows s ready = turnoff_from-Shows 20 0 s (omega arith) ready

  show-Shows :
      (state : ℤ) (position : ℕ) (s : Connection)
      → is_three state ≡ false
      → position < 100
      → IsReady ls handle s
      → Shows ls handle (show world ls state position) (lit state position ∷ []) s
  unfolding show
  show-Shows state position s not_three small ready = elim (Bool-cases (truth state)) [
    | inl on ↦
        rw (not_three, on)
          (set_rgb-Shows world writes ls handle (pos position) 4 0 255 0 s (omega arith) ready)
    | inr off ↦
        rw (not_three, off)
          (set_rgb-Shows world writes ls handle (pos position) 4 0 0 0 s (omega arith) ready)
  ]

  toggle_led-Shows :
      (state : ℤ) (text : List ℕ) (position : ℕ) (s : Connection)
      → is_three state ≡ false
      → parse_position loc_list text ≡ ok position
      → IsReady ls handle s
      → Shows ls handle (toggle_led world ls state (some text)) (lit state position ∷ []) s
  unfolding toggle_led
  toggle_led-Shows state [] position s not_three found ready =
      absurd (unfold parse_position in cc found)
  toggle_led-Shows state (c ∷ cs) position s not_three found ready =
      rw found
        (show-Shows state position s not_three (parse_position-lt (c ∷ cs) position found) ready)

  toggle_each-Shows :
      (argv : List (List ℕ)) (state : ℤ) (texts : List (List ℕ)) (positions : List ℕ)
      (s : Connection)
      → int_argument argv 1 ≡ ok state
      → is_three state ≡ false
      → Found texts positions
      → IsReady ls handle s
      → Shows ls handle (toggle_each world ls argv texts) (map (lit state) positions) s
  unfolding toggle_each
  toggle_each-Shows argv state [] [] s read not_three found ready = skip-Shows ls handle s ready
  toggle_each-Shows argv state [] (n ∷ ns) s read not_three found ready = absurd found
  toggle_each-Shows argv state (text ∷ texts) [] s read not_three found ready = absurd found
  toggle_each-Shows argv state (text ∷ texts) (n ∷ ns) s read not_three found ready =
      let first = toggle_led-Shows state text n s not_three found.0 ready in
      rw read (
        Shows-then first
          (toggle_each-Shows argv state texts ns first.after read not_three found.1 first.ready))

  -- With an open connection and a socket that takes every packet, opr2 of led.py returns and sends
  -- exactly these requests, in order: the 200 LEDs are turned off in groups of ten, and then the
  -- state is shown at the position of each text. The first argument is the state, a number other
  -- than 3, and every further argument names a position.
  pub opr2-Shows :
      (argv : List (List ℕ)) (state : ℤ) (positions : List ℕ) (s : Connection)
      → int_argument argv 1 ≡ ok state
      → is_three state ≡ false
      → Found (drop 2 argv) positions
      → IsReady ls handle s
      → Shows ls handle (opr2 world ls argv) (clears 20 0 ++ map (lit state) positions) s
  unfolding opr2 toggle_led
  opr2-Shows argv state positions s read not_three found ready =
      let first = turnoff-Shows s ready in
      rw read (
        Shows-then first (
          toggle_each-Shows argv state (drop 2 argv) positions first.after read not_three found
            first.ready))
