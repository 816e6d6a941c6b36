-- ===== src/Bindings/Devices/AnalogOutV2.antt =====
-- scripts/tinkerforge/bricklet_analog_out_v2.py: class BrickletAnalogOutV2.
use lufthansa.Base.{[], ◌∷◌}
use lufthansa.Format.{ch, str, u16, u8, one, many}
use lufthansa.State.{always_true, set_false}
use lufthansa.Bindings.Class.{Function, Binding, setter, getter, tuple_getter}

abbrev pub set_output_voltage : Function
set_output_voltage = setter 1 1 (one u16 ∷ [])

abbrev pub get_output_voltage : Function
get_output_voltage = getter 2 0 [] (one u16 ∷ [])

abbrev pub get_input_voltage : Function
get_input_voltage = getter 3 0 [] (one u16 ∷ [])

abbrev pub get_identity : Function
get_identity =
    tuple_getter 255 0 [] (many 8 str ∷ many 8 str ∷ one ch ∷ many 3 u8 ∷ many 3 u8 ∷ one u16 ∷ [])
      6

-- The constructor and the methods.
abbrev pub binding : Binding
binding = record {
  api_version = (2, 0, 0);
  flags = (1, set_false) ∷ (2, always_true) ∷ (3, always_true) ∷ (255, always_true) ∷ [];
  formats = [];
  functions = set_output_voltage ∷ get_output_voltage ∷ get_input_voltage ∷ get_identity ∷ [];
}
