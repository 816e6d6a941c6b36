-- ===== src/Bindings/Devices/AnalogOut.antt =====
-- scripts/tinkerforge/bricklet_analog_out.py: class BrickletAnalogOut.
use lufthansa.Base.{[], ◌∷◌}
use lufthansa.Format.{ch, str, u16, u8, one, many}
use lufthansa.State.{always_true, set_false}
use lufthansa.Bindings.Class.{Function, Binding, setter, getter, tuple_getter}

abbrev pub set_voltage : Function
set_voltage = setter 1 1 (one u16 ∷ [])

abbrev pub get_voltage : Function
get_voltage = getter 2 0 [] (one u16 ∷ [])

abbrev pub set_mode : Function
set_mode = setter 3 1 (one u8 ∷ [])

abbrev pub get_mode : Function
get_mode = getter 4 0 [] (one u8 ∷ [])

abbrev pub get_identity : Function
get_identity =
    tuple_getter 255 0 [] (many 8 str ∷ many 8 str ∷ one ch ∷ many 3 u8 ∷ many 3 u8 ∷ one u16 ∷ [])
      6

-- The constructor and the methods.
abbrev pub binding : Binding
binding = record {
  api_version = (2, 0, 0);
  flags =
      (1, set_false)
      ∷ (2, always_true)
      ∷ (3, set_false)
      ∷ (4, always_true)
      ∷ (255, always_true)
      ∷ [];
  formats = [];
  functions = set_voltage ∷ get_voltage ∷ set_mode ∷ get_mode ∷ get_identity ∷ [];
}
