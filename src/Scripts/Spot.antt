-- ===== src/Scripts/Spot.antt =====
-- scripts/b.py: the variant of scripts/led.py that sets a single LED.
use lufthansa.Base.{
  ℕ, List, [], ◌∷◌, Bool, true, false, ltb, if◌then◌else◌, Option, none, some, length, drop, codes,
  ℤ, pos, lift, gets, modify, pure, skip, ◌>>=◌, ◌>>◌,
}
use lufthansa.State.{World, Method, user}
use lufthansa.Lifecycle.{Attempt, connect, disconnect, set_timeout, wait}
use lufthansa.Bindings.{construct, register_callback}
use lufthansa.Bindings.Devices
use lufthansa.Maintenance.{init_connection}
use lufthansa.Scripts.{rgb, set_rgb, parse_position, truth, is_three, argv_is_three, int_argument}

abbrev pub loc_list : List (List ℕ)
loc_list =
    (0 ∷ 15 ∷ 20 ∷ 35 ∷ 40 ∷ 55 ∷ 60 ∷ 75 ∷ 80 ∷ [])
    ∷ (5 ∷ 10 ∷ 25 ∷ 30 ∷ 45 ∷ 50 ∷ 65 ∷ 70 ∷ 85 ∷ [])
    ∷ []

-- def turnoff(ls, delay=0): pass
abbrev pub turnoff : Method (Unit {0})
turnoff = skip

abbrev pub show : World → ℕ → ℤ → ℕ → Method (Unit {0})
unfolding set_rgb
show world ls state position =
    if is_three state
    then turnoff
    else if truth state
    then set_rgb world ls (rgb (pos position) 5 0 255 0)
    else set_rgb world ls (rgb (pos position) 5 0 0 0)

unfoldable pub toggle_led : World → ℕ → ℤ → Option (List ℕ) → Method (Unit {0})
unfolding show parse_position
toggle_led world ls state none = turnoff
toggle_led world ls state (some []) = turnoff
toggle_led world ls state (some (c ∷ cs)) = do
  position ← lift (parse_position loc_list (c ∷ cs))
  show world ls state position

unfoldable pub toggle_each : World → ℕ → List (List ℕ) → List (List ℕ) → Method (Unit {0})
unfolding toggle_led int_argument
toggle_each world ls argv [] = skip
toggle_each world ls argv (text ∷ texts) = do
  state ← lift (int_argument argv 1)
  toggle_led world ls state (some text)
  toggle_each world ls argv texts

unfoldable pub opr : World → ℕ → List (List ℕ) → Method (Unit {0})
unfolding toggle_each
opr world ls argv =
    if argv_is_three argv
    then (turnoff >> turnoff)
    else if ltb (length argv) 3
    then (lift (int_argument argv 1) >>= λ state. toggle_led world ls state none)
    else toggle_each world ls argv (drop 2 argv)

-- The green part of the LED's colour.
abbrev green : ℤ → ℕ
green state = if truth state then 255 else 0

unfoldable pub opr2 : World → ℕ → List (List ℕ) → Method (Unit {0})
unfolding set_rgb int_argument
opr2 world ls argv = do
  state ← lift (int_argument argv 1)
  index ← lift (int_argument argv 2)
  set_rgb world ls (rgb index 1 0 (green state) 0)

unfoldable pub finish : ℕ → Method (Unit {0})
unfolding disconnect register_callback
finish ls = do disconnect user; modify (register_callback ls 6 none)

-- The main program; `false` if it blocks in `wait`.
unfoldable pub main : Attempt → World → List (List ℕ) → Method Bool
unfolding init_connection connect set_timeout wait construct opr2 finish
main att world argv = do
  init_connection
  connect user att "137.226.151.148" 4223
  set_timeout (pos 10000000)
  free ← gets wait
  elim free [
    | none ↦ pure false
    | some s' ↦ do
      modify (λ _. s')
      ls ← construct Devices.LedStrip.binding (codes "oV7")
      opr2 world ls argv
      finish ls
      pure true
  ]
