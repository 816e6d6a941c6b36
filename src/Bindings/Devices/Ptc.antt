-- ===== src/Bindings/Devices/Ptc.antt =====
-- scripts/tinkerforge/bricklet_ptc.py: class BrickletPTC.
use lufthansa.Base.{[], ◌∷◌}
use lufthansa.Format.{ch, flag, i32, str, u16, u32, u8, one, many}
use lufthansa.State.{always_false, always_true, set_false, set_true}
use lufthansa.Bindings.Class.{Function, Binding, setter, getter, tuple_getter}

abbrev pub get_temperature : Function
get_temperature = getter 1 0 [] (one i32 ∷ [])

abbrev pub get_resistance : Function
get_resistance = getter 2 0 [] (one u16 ∷ [])

abbrev pub set_temperature_callback_period : Function
set_temperature_callback_period = setter 3 1 (one u32 ∷ [])

abbrev pub get_temperature_callback_period : Function
get_temperature_callback_period = getter 4 0 [] (one u32 ∷ [])

abbrev pub set_resistance_callback_period : Function
set_resistance_callback_period = setter 5 1 (one u32 ∷ [])

abbrev pub get_resistance_callback_period : Function
get_resistance_callback_period = getter 6 0 [] (one u32 ∷ [])

abbrev pub set_temperature_callback_threshold : Function
set_temperature_callback_threshold = setter 7 3 (one ch ∷ one i32 ∷ one i32 ∷ [])

abbrev pub get_temperature_callback_threshold : Function
get_temperature_callback_threshold = tuple_getter 8 0 [] (one ch ∷ one i32 ∷ one i32 ∷ []) 3

abbrev pub set_resistance_callback_threshold : Function
set_resistance_callback_threshold = setter 9 3 (one ch ∷ one u16 ∷ one u16 ∷ [])

abbrev pub get_resistance_callback_threshold : Function
get_resistance_callback_threshold = tuple_getter 10 0 [] (one ch ∷ one u16 ∷ one u16 ∷ []) 3

abbrev pub set_debounce_period : Function
set_debounce_period = setter 11 1 (one u32 ∷ [])

abbrev pub get_debounce_period : Function
get_debounce_period = getter 12 0 [] (one u32 ∷ [])

abbrev pub set_noise_rejection_filter : Function
set_noise_rejection_filter = setter 17 1 (one u8 ∷ [])

abbrev pub get_noise_rejection_filter : Function
get_noise_rejection_filter = getter 18 0 [] (one u8 ∷ [])

abbrev pub is_sensor_connected : Function
is_sensor_connected = getter 19 0 [] (one flag ∷ [])

abbrev pub set_wire_mode : Function
set_wire_mode = setter 20 1 (one u8 ∷ [])

abbrev pub get_wire_mode : Function
get_wire_mode = getter 21 0 [] (one u8 ∷ [])

abbrev pub get_identity : Function
get_identity =
    tuple_getter 255 0 [] (many 8 str ∷ many 8 str ∷ one ch ∷ many 3 u8 ∷ many 3 u8 ∷ one u16 ∷ [])
      6

-- The constructor and the methods.
abbrev pub binding : Binding
binding = record {
  api_version = (2, 0, 0);
  flags =
      (1, always_true)
      ∷ (2, always_true)
      ∷ (3, set_true)
      ∷ (4, always_true)
      ∷ (5, set_true)
      ∷ (6, always_true)
      ∷ (7, set_true)
      ∷ (8, always_true)
      ∷ (9, set_true)
      ∷ (10, always_true)
      ∷ (11, set_true)
      ∷ (12, always_true)
      ∷ (13, always_false)
      ∷ (14, always_false)
      ∷ (15, always_false)
      ∷ (16, always_false)
      ∷ (17, set_false)
      ∷ (18, always_true)
      ∷ (19, always_true)
      ∷ (20, set_false)
      ∷ (21, always_true)
      ∷ (255, always_true)
      ∷ [];
  formats = (13, one i32 ∷ []) ∷ (14, one i32 ∷ []) ∷ (15, one u16 ∷ []) ∷ (16, one u16 ∷ []) ∷ [];
  functions =
      get_temperature ∷ get_resistance ∷ set_temperature_callback_period
      ∷ get_temperature_callback_period ∷ set_resistance_callback_period
      ∷ get_resistance_callback_period ∷ set_temperature_callback_threshold
      ∷ get_temperature_callback_threshold ∷ set_resistance_callback_threshold
      ∷ get_resistance_callback_threshold ∷ set_debounce_period ∷ get_debounce_period
      ∷ set_noise_rejection_filter ∷ get_noise_rejection_filter ∷ is_sensor_connected
      ∷ set_wire_mode ∷ get_wire_mode ∷ get_identity ∷ [];
}
