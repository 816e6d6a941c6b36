-- ===== src/Scripts.antt =====
-- scripts/led.py, scripts/b.py, scripts/a.py: programs that drive one LED strip. A text is the list of
-- its character codes. What a call of the bindings meets is given by a `World`, a function of the
-- state in which it is made. What the scripts print is not kept.
pub mod Number
pub mod Led
pub mod Spot
pub mod Blink
pub mod Sends
use lufthansa.Base.{
  ℕ, List, [], ◌∷◌, Bool, true, false, Option, none, some, if◌then◌else◌, take, drop, ◌==◌, ◌&&◌,
  replicate, ℤ, pos, Result, ok, err, bind, Exec, lift, gets, modify, pure, raise, skip, ◌>>=◌,
  ◌>>◌,
}
use lufthansa.Format.{Value, Scalar, scalar, tuple, int}
use lufthansa.State.{Connection, Method, Packet, World}
use lufthansa.Bindings.{invoke, Reply}
use lufthansa.Bindings.Devices.LedStrip.{set_rgb_values}
use lufthansa.Scripts.Number.{int_of, item, pred}

-- [c]*16
abbrev pub sixteen : ℕ → Value
sixteen c = tuple (replicate 16 (int (pos c)))

-- The arguments of a call of ls.set_rgb_values with the same colour for all LEDs.
abbrev pub rgb : ℤ → ℕ → ℕ → ℕ → ℕ → List Value
rgb index count r g b =
    scalar (int index) ∷ scalar (int (pos count)) ∷ sixteen r ∷ sixteen g ∷ sixteen b ∷ []

-- ls.set_rgb_values on the LED strip object at an address
unfoldable pub set_rgb : World → ℕ → List Value → Method (Unit {0})
unfolding invoke
set_rgb world ls args s = (invoke (world s).0 (world s).1 ls set_rgb_values args >> skip) s

abbrev same_text : List ℕ → List ℕ → Bool
same_text [] [] = true
same_text [] (d ∷ ds) = false
same_text (c ∷ cs) [] = false
same_text (c ∷ cs) (d ∷ ds) = c == d && same_text cs ds

-- 0 for 'A', and else 1
abbrev pub column : List ℕ → ℤ
column text = if same_text text (65 ∷ []) then pos 0 else pos 1

-- locations[int(row)-1]
abbrev pub in_column : List ℕ → List ℕ → Result ℕ
unfolding int_of item
in_column position locations = bind (int_of (take 2 position)) λ row. item locations (pred row)

-- parsePosition, over the table locList; led.py and b.py differ in the table alone.
unfoldable pub parse_position : List (List ℕ) → List ℕ → Result ℕ
unfolding in_column item
parse_position loc_list position =
    bind (item loc_list (column (drop 3 position))) (in_column position)

-- if state: ...
abbrev pub truth : ℤ → Bool
truth (pos n) = if n == 0 then false else true
truth _ = true

abbrev pub is_three : ℤ → Bool
is_three (pos n) = n == 3
is_three _ = false

-- A list never equals a number: sys.argv == 3.
abbrev pub argv_is_three : List (List ℕ) → Bool
argv_is_three argv = false

-- sys.argv[i]
abbrev pub argument : List (List ℕ) → ℕ → Result (List ℕ)
unfolding item
argument argv i = item argv (pos i)

-- int(sys.argv[i])
abbrev pub int_argument : List (List ℕ) → ℕ → Result ℤ
unfolding int_of
int_argument argv i = bind (argument argv i) int_of
