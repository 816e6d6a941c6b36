-- ===== src/Scripts/Led.antt =====
-- scripts/led.py
pub mod Shown
pub mod Program
use lufthansa.Base.{
  ℕ, zero, suc, ◌+◌, ◌*◌, List, [], ◌∷◌, Bool, true, false, not, ltb, ◌==◌, if◌then◌else◌, Option,
  none, some, length, drop, ℤ, pos, negsuc, codes, lift, gets, modify, pure, raise, skip, when,
  ◌>>=◌, ◌>>◌,
}
use lufthansa.State.{World, Connection, Method, Thread, user, emit, slept}
use lufthansa.Lifecycle.{Attempt, connect, disconnect, set_timeout, wait}
use lufthansa.Bindings.{construct, register_callback}
use lufthansa.Bindings.Devices
use lufthansa.Maintenance.{init_connection}
use lufthansa.Scripts.{rgb, set_rgb, parse_position, truth, is_three, argv_is_three, int_argument}

-- The table, the rows 1 and 2 of the columns A and B.
abbrev pub loc_list : List (List ℕ)
loc_list = (58 ∷ 40 ∷ []) ∷ (87 ∷ 18 ∷ []) ∷ []

-- The calls of the loop from a round on.
unfoldable pub turnoff_from : World → ℕ → ℕ → ℕ → Method (Unit {0})
unfolding set_rgb
turnoff_from world ls zero i = skip
turnoff_from world ls (suc rounds) i = do
  set_rgb world ls (rgb (pos (i * 10)) 10 0 0 0)
  turnoff_from world ls rounds (i + 1)

-- turnoff, with the delay in tenths of a second
unfoldable pub turnoff : World → ℕ → ℕ → Method (Unit {0})
unfolding turnoff_from
turnoff world ls delay = do when (not (delay == 0)) (emit slept); turnoff_from world ls 20 0

-- What toggleLED does with a position that has been found.
abbrev pub show : World → ℕ → ℤ → ℕ → Method (Unit {0})
unfolding turnoff set_rgb
show world ls state position =
    if is_three state
    then turnoff world ls 0
    else if truth state
    then set_rgb world ls (rgb (pos position) 4 0 255 0)
    else set_rgb world ls (rgb (pos position) 4 0 0 0)

-- toggleLED. An empty text is as good as none.
unfoldable pub toggle_led : World → ℕ → ℤ → Option (List ℕ) → Method (Unit {0})
unfolding show turnoff parse_position
toggle_led world ls state none = turnoff world ls 0
toggle_led world ls state (some []) = turnoff world ls 0
toggle_led world ls state (some (c ∷ cs)) = do
  position ← lift (parse_position loc_list (c ∷ cs))
  show world ls state position

-- for i in range(2, len(sys.argv)): toggleLED(ls, int(sys.argv[1]), sys.argv[i])
unfoldable pub toggle_each : World → ℕ → List (List ℕ) → List (List ℕ) → Method (Unit {0})
unfolding toggle_led int_argument
toggle_each world ls argv [] = skip
toggle_each world ls argv (text ∷ texts) = do
  state ← lift (int_argument argv 1)
  toggle_led world ls state (some text)
  toggle_each world ls argv texts

unfoldable pub opr : World → ℕ → List (List ℕ) → Method (Unit {0})
unfolding toggle_each
opr world ls argv =
    if argv_is_three argv
    then (turnoff world ls 5 >> turnoff world ls 10)
    else if ltb (length argv) 3
    then (lift (int_argument argv 1) >>= λ state. toggle_led world ls state none)
    else toggle_each world ls argv (drop 2 argv)

-- The loop has nothing to do without a third argument.
unfoldable pub opr2 : World → ℕ → List (List ℕ) → Method (Unit {0})
unfolding toggle_each
opr2 world ls argv = do
  state ← lift (int_argument argv 1)
  toggle_led world ls state none
  toggle_each world ls argv (drop 2 argv)

-- ls.register_callback(ls.CALLBACK_FRAME_RENDERED, disconnect()): the call comes first, and it
-- returns None.
unfoldable pub finish : ℕ → Method (Unit {0})
unfolding disconnect register_callback
finish ls = do disconnect user; modify (register_callback ls 6 none)

-- The main program up to the LED strip object, whose address it gives; none if it blocks in `wait`.
unfoldable pub setup : Attempt → Method (Option ℕ)
unfolding init_connection connect set_timeout wait construct
setup att = do
  init_connection
  connect user att "137.226.151.148" 4223
  set_timeout (pos 10000000)
  free ← gets wait
  elim free [
    | none ↦ pure none
    | some s' ↦ do
      modify (λ _. s')
      ls ← construct Devices.LedStrip.binding (codes "oV7")
      pure (some ls)
  ]

-- The main program, with what the environment does; `false` if it blocks.
unfoldable pub main : Attempt → World → List (List ℕ) → Method Bool
unfolding setup opr2 finish
main att world argv = do
  strip ← setup att
  elim strip [ none ↦ pure false | some ls ↦ do opr2 world ls argv; finish ls; pure true ]
