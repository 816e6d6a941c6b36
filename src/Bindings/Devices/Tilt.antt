-- ===== src/Bindings/Devices/Tilt.antt =====
-- scripts/tinkerforge/bricklet_tilt.py: class BrickletTilt.
use lufthansa.Base.{[], ◌∷◌}
use lufthansa.Format.{ch, flag, str, u16, u8, one, many}
use lufthansa.State.{always_false, always_true, set_true}
use lufthansa.Bindings.Class.{Function, Binding, setter, getter, tuple_getter}

abbrev pub get_tilt_state : Function
get_tilt_state = getter 1 0 [] (one u8 ∷ [])

abbrev pub enable_tilt_state_callback : Function
enable_tilt_state_callback = setter 2 0 []

abbrev pub disable_tilt_state_callback : Function
disable_tilt_state_callback = setter 3 0 []

abbrev pub is_tilt_state_callback_enabled : Function
is_tilt_state_callback_enabled = getter 4 0 [] (one flag ∷ [])

abbrev pub get_identity : Function
get_identity =
    tuple_getter 255 0 [] (many 8 str ∷ many 8 str ∷ one ch ∷ many 3 u8 ∷ many 3 u8 ∷ one u16 ∷ [])
      6

-- The constructor and the methods.
abbrev pub binding : Binding
binding = record {
  api_version = (2, 0, 0);
  flags =
      (1, always_true)
      ∷ (2, set_true)
      ∷ (3, set_true)
      ∷ (4, always_true)
      ∷ (5, always_false)
      ∷ (255, always_true)
      ∷ [];
  formats = (5, one u8 ∷ []) ∷ [];
  functions =
      get_tilt_state ∷ enable_tilt_state_callback ∷ disable_tilt_state_callback
      ∷ is_tilt_state_callback_enabled ∷ get_identity ∷ [];
}
