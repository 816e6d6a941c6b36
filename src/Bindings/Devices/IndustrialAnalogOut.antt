-- ===== src/Bindings/Devices/IndustrialAnalogOut.antt =====
-- scripts/tinkerforge/bricklet_industrial_analog_out.py: class BrickletIndustrialAnalogOut.
use lufthansa.Base.{[], ◌∷◌}
use lufthansa.Format.{ch, flag, str, u16, u8, one, many}
use lufthansa.State.{always_true, set_false}
use lufthansa.Bindings.Class.{Function, Binding, setter, getter, tuple_getter}

abbrev pub enable : Function
enable = setter 1 0 []

abbrev pub disable : Function
disable = setter 2 0 []

abbrev pub is_enabled : Function
is_enabled = getter 3 0 [] (one flag ∷ [])

abbrev pub set_voltage : Function
set_voltage = setter 4 1 (one u16 ∷ [])

abbrev pub get_voltage : Function
get_voltage = getter 5 0 [] (one u16 ∷ [])

abbrev pub set_current : Function
set_current = setter 6 1 (one u16 ∷ [])

abbrev pub get_current : Function
get_current = getter 7 0 [] (one u16 ∷ [])

abbrev pub set_configuration : Function
set_configuration = setter 8 2 (one u8 ∷ one u8 ∷ [])

abbrev pub get_configuration : Function
get_configuration = tuple_getter 9 0 [] (one u8 ∷ one u8 ∷ []) 2

abbrev pub get_identity : Function
get_identity =
    tuple_getter 255 0 [] (many 8 str ∷ many 8 str ∷ one ch ∷ many 3 u8 ∷ many 3 u8 ∷ one u16 ∷ [])
      6

-- The constructor and the methods.
abbrev pub binding : Binding
binding = record {
  api_version = (2, 0, 0);
  flags =
      (1, set_false)
      ∷ (2, set_false)
      ∷ (3, always_true)
      ∷ (4, set_false)
      ∷ (5, always_true)
      ∷ (6, set_false)
      ∷ (7, always_true)
      ∷ (8, set_false)
      ∷ (9, always_true)
      ∷ (255, always_true)
      ∷ [];
  formats = [];
  functions =
      enable ∷ disable ∷ is_enabled ∷ set_voltage ∷ get_voltage ∷ set_current ∷ get_current
      ∷ set_configuration ∷ get_configuration ∷ get_identity ∷ [];
}
