-- ===== src/Bindings/Devices/AnalogIn.antt =====
-- scripts/tinkerforge/bricklet_analog_in.py: class BrickletAnalogIn.
use lufthansa.Base.{[], ◌∷◌}
use lufthansa.Format.{ch, i16, str, u16, u32, u8, one, many}
use lufthansa.State.{always_false, always_true, set_false, set_true}
use lufthansa.Bindings.Class.{Function, Binding, setter, getter, tuple_getter}

abbrev pub get_voltage : Function
get_voltage = getter 1 0 [] (one u16 ∷ [])

abbrev pub get_analog_value : Function
get_analog_value = getter 2 0 [] (one u16 ∷ [])

abbrev pub set_voltage_callback_period : Function
set_voltage_callback_period = setter 3 1 (one u32 ∷ [])

abbrev pub get_voltage_callback_period : Function
get_voltage_callback_period = getter 4 0 [] (one u32 ∷ [])

abbrev pub set_analog_value_callback_period : Function
set_analog_value_callback_period = setter 5 1 (one u32 ∷ [])

abbrev pub get_analog_value_callback_period : Function
get_analog_value_callback_period = getter 6 0 [] (one u32 ∷ [])

abbrev pub set_voltage_callback_threshold : Function
set_voltage_callback_threshold = setter 7 3 (one ch ∷ one i16 ∷ one i16 ∷ [])

abbrev pub get_voltage_callback_threshold : Function
get_voltage_callback_threshold = tuple_getter 8 0 [] (one ch ∷ one i16 ∷ one i16 ∷ []) 3

abbrev pub set_analog_value_callback_threshold : Function
set_analog_value_callback_threshold = setter 9 3 (one ch ∷ one u16 ∷ one u16 ∷ [])

abbrev pub get_analog_value_callback_threshold : Function
get_analog_value_callback_threshold = tuple_getter 10 0 [] (one ch ∷ one u16 ∷ one u16 ∷ []) 3

abbrev pub set_debounce_period : Function
set_debounce_period = setter 11 1 (one u32 ∷ [])

abbrev pub get_debounce_period : Function
get_debounce_period = getter 12 0 [] (one u32 ∷ [])

abbrev pub set_range : Function
set_range = setter 17 1 (one u8 ∷ [])

abbrev pub get_range : Function
get_range = getter 18 0 [] (one u8 ∷ [])

abbrev pub set_averaging : Function
set_averaging = setter 19 1 (one u8 ∷ [])

abbrev pub get_averaging : Function
get_averaging = getter 20 0 [] (one u8 ∷ [])

abbrev pub get_identity : Function
get_identity =
    tuple_getter 255 0 [] (many 8 str ∷ many 8 str ∷ one ch ∷ many 3 u8 ∷ many 3 u8 ∷ one u16 ∷ [])
      6

-- The constructor and the methods.
abbrev pub binding : Binding
binding = record {
  api_version = (2, 0, 2);
  flags =
      (1, always_true)
      ∷ (2, always_true)
      ∷ (3, set_true)
      ∷ (4, always_true)
      ∷ (5, set_true)
      ∷ (6, always_true)
      ∷ (7, set_true)
      ∷ (8, always_true)
      ∷ (9, set_true)
      ∷ (10, always_true)
      ∷ (11, set_true)
      ∷ (12, always_true)
      ∷ (13, always_false)
      ∷ (14, always_false)
      ∷ (15, always_false)
      ∷ (16, always_false)
      ∷ (17, set_false)
      ∷ (18, always_true)
      ∷ (19, set_false)
      ∷ (20, always_true)
      ∷ (255, always_true)
      ∷ [];
  formats = (13, one u16 ∷ []) ∷ (14, one u16 ∷ []) ∷ (15, one u16 ∷ []) ∷ (16, one u16 ∷ []) ∷ [];
  functions =
      get_voltage ∷ get_analog_value ∷ set_voltage_callback_period ∷ get_voltage_callback_period
      ∷ set_analog_value_callback_period ∷ get_analog_value_callback_period
      ∷ set_voltage_callback_threshold ∷ get_voltage_callback_threshold
      ∷ set_analog_value_callback_threshold ∷ get_analog_value_callback_threshold
      ∷ set_debounce_period ∷ get_debounce_period ∷ set_range ∷ get_range ∷ set_averaging
      ∷ get_averaging ∷ get_identity ∷ [];
}
