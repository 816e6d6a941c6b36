-- ===== src/Bindings/Devices/VoltageCurrent.antt =====
-- scripts/tinkerforge/bricklet_voltage_current.py: class BrickletVoltageCurrent.
use lufthansa.Base.{[], ◌∷◌}
use lufthansa.Format.{ch, i32, str, u16, u32, u8, one, many}
use lufthansa.State.{always_false, always_true, set_false, set_true}
use lufthansa.Bindings.Class.{Function, Binding, setter, getter, tuple_getter}

abbrev pub get_current : Function
get_current = getter 1 0 [] (one i32 ∷ [])

abbrev pub get_voltage : Function
get_voltage = getter 2 0 [] (one i32 ∷ [])

abbrev pub get_power : Function
get_power = getter 3 0 [] (one i32 ∷ [])

abbrev pub set_configuration : Function
set_configuration = setter 4 3 (one u8 ∷ one u8 ∷ one u8 ∷ [])

abbrev pub get_configuration : Function
get_configuration = tuple_getter 5 0 [] (one u8 ∷ one u8 ∷ one u8 ∷ []) 3

abbrev pub set_calibration : Function
set_calibration = setter 6 2 (one u16 ∷ one u16 ∷ [])

abbrev pub get_calibration : Function
get_calibration = tuple_getter 7 0 [] (one u16 ∷ one u16 ∷ []) 2

abbrev pub set_current_callback_period : Function
set_current_callback_period = setter 8 1 (one u32 ∷ [])

abbrev pub get_current_callback_period : Function
get_current_callback_period = getter 9 0 [] (one u32 ∷ [])

abbrev pub set_voltage_callback_period : Function
set_voltage_callback_period = setter 10 1 (one u32 ∷ [])

abbrev pub get_voltage_callback_period : Function
get_voltage_callback_period = getter 11 0 [] (one u32 ∷ [])

abbrev pub set_power_callback_period : Function
set_power_callback_period = setter 12 1 (one u32 ∷ [])

abbrev pub get_power_callback_period : Function
get_power_callback_period = getter 13 0 [] (one u32 ∷ [])

abbrev pub set_current_callback_threshold : Function
set_current_callback_threshold = setter 14 3 (one ch ∷ one i32 ∷ one i32 ∷ [])

abbrev pub get_current_callback_threshold : Function
get_current_callback_threshold = tuple_getter 15 0 [] (one ch ∷ one i32 ∷ one i32 ∷ []) 3

abbrev pub set_voltage_callback_threshold : Function
set_voltage_callback_threshold = setter 16 3 (one ch ∷ one i32 ∷ one i32 ∷ [])

abbrev pub get_voltage_callback_threshold : Function
get_voltage_callback_threshold = tuple_getter 17 0 [] (one ch ∷ one i32 ∷ one i32 ∷ []) 3

abbrev pub set_power_callback_threshold : Function
set_power_callback_threshold = setter 18 3 (one ch ∷ one i32 ∷ one i32 ∷ [])

abbrev pub get_power_callback_threshold : Function
get_power_callback_threshold = tuple_getter 19 0 [] (one ch ∷ one i32 ∷ one i32 ∷ []) 3

abbrev pub set_debounce_period : Function
set_debounce_period = setter 20 1 (one u32 ∷ [])

abbrev pub get_debounce_period : Function
get_debounce_period = getter 21 0 [] (one u32 ∷ [])

abbrev pub get_identity : Function
get_identity =
    tuple_getter 255 0 [] (many 8 str ∷ many 8 str ∷ one ch ∷ many 3 u8 ∷ many 3 u8 ∷ one u16 ∷ [])
      6

-- The constructor and the methods.
abbrev pub binding : Binding
binding = record {
  api_version = (2, 0, 0);
  flags =
      (1, always_true)
      ∷ (2, always_true)
      ∷ (3, always_true)
      ∷ (4, set_false)
      ∷ (5, always_true)
      ∷ (6, set_false)
      ∷ (7, always_true)
      ∷ (8, set_true)
      ∷ (9, always_true)
      ∷ (10, set_true)
      ∷ (11, always_true)
      ∷ (12, set_true)
      ∷ (13, always_true)
      ∷ (14, set_true)
      ∷ (15, always_true)
      ∷ (16, set_true)
      ∷ (17, always_true)
      ∷ (18, set_true)
      ∷ (19, always_true)
      ∷ (20, set_true)
      ∷ (21, always_true)
      ∷ (22, always_false)
      ∷ (23, always_false)
      ∷ (24, always_false)
      ∷ (25, always_false)
      ∷ (26, always_false)
      ∷ (27, always_false)
      ∷ (255, always_true)
      ∷ [];
  formats =
      (22, one i32 ∷ [])
      ∷ (23, one i32 ∷ [])
      ∷ (24, one i32 ∷ [])
      ∷ (25, one i32 ∷ [])
      ∷ (26, one i32 ∷ [])
      ∷ (27, one i32 ∷ [])
      ∷ [];
  functions =
      get_current ∷ get_voltage ∷ get_power ∷ set_configuration ∷ get_configuration
      ∷ set_calibration ∷ get_calibration ∷ set_current_callback_period
      ∷ get_current_callback_period ∷ set_voltage_callback_period ∷ get_voltage_callback_period
      ∷ set_power_callback_period ∷ get_power_callback_period ∷ set_current_callback_threshold
      ∷ get_current_callback_threshold ∷ set_voltage_callback_threshold
      ∷ get_voltage_callback_threshold ∷ set_power_callback_threshold ∷ get_power_callback_threshold
      ∷ set_debounce_period ∷ get_debounce_period ∷ get_identity ∷ [];
}
