-- ===== src/Scripts/Blink.antt =====
-- scripts/a.py: after each rendered frame one LED is set to green, at the next index.
pub mod Frames
use lufthansa.Base.{
  ℕ, zero, suc, ◌+◌, List, [], ◌∷◌, Bool, some, codes, pos, Result, lift, modify, pure, skip, ◌>>=◌,
  ◌>>◌,
}
use lufthansa.State.{World, Connection, Method, user, emit, slept}
use lufthansa.Lifecycle.{Attempt, connect, disconnect}
use lufthansa.Format.{Value, scalar, int}
use lufthansa.Bindings.{construct, register_callback, invoke}
use lufthansa.Bindings.Devices
use lufthansa.Bindings.Devices.LedStrip.{set_frame_duration}
use lufthansa.Maintenance.{init_connection}
use lufthansa.Scripts.{rgb, set_rgb}

-- cb_frame_rendered, from the value of the global r_index: its new value, which stays also if the
-- call raises, and the call.
unfoldable pub cb_frame_rendered : World → ℕ → ℕ → ℕ × Method (Unit {0})
unfolding set_rgb
cb_frame_rendered world ls r_index =
    (r_index + 1, emit slept >> set_rgb world ls (rgb (pos (r_index + 1)) 1 0 255 0))

-- So many frames in a row, from a value of r_index.
unfoldable pub frames : World → ℕ → ℕ → ℕ → Method (Unit {0})
unfolding cb_frame_rendered
frames world ls zero r_index = skip
frames world ls (suc count) r_index =
    let (index, render) = cb_frame_rendered world ls r_index in
    render >> frames world ls count index

-- The main program up to the key press; the callback is the function with the given number.
unfoldable pub start : Attempt → World → ℕ → Method ℕ
unfolding init_connection connect construct register_callback set_rgb invoke
start att world callback = do
  init_connection
  ls ← construct Devices.LedStrip.binding (codes "oV7")
  connect user att "137.226.151.148" 4223
  (λ s.
      (invoke (world s).0 (world s).1 ls set_frame_duration (scalar (int (pos 50)) ∷ []) >> skip) s)
  modify (register_callback ls 6 (some callback))
  set_rgb world ls (rgb (pos 0) 16 0 0 0)
  pure ls
