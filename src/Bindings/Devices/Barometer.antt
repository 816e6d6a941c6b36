-- ===== src/Bindings/Devices/Barometer.antt =====
-- scripts/tinkerforge/bricklet_barometer.py: class BrickletBarometer.
use lufthansa.Base.{[], ◌∷◌}
use lufthansa.Format.{ch, i16, i32, str, u16, u32, u8, one, many}
use lufthansa.State.{always_false, always_true, set_false, set_true}
use lufthansa.Bindings.Class.{Function, Binding, setter, getter, tuple_getter}

abbrev pub get_air_pressure : Function
get_air_pressure = getter 1 0 [] (one i32 ∷ [])

abbrev pub get_altitude : Function
get_altitude = getter 2 0 [] (one i32 ∷ [])

abbrev pub set_air_pressure_callback_period : Function
set_air_pressure_callback_period = setter 3 1 (one u32 ∷ [])

abbrev pub get_air_pressure_callback_period : Function
get_air_pressure_callback_period = getter 4 0 [] (one u32 ∷ [])

abbrev pub set_altitude_callback_period : Function
set_altitude_callback_period = setter 5 1 (one u32 ∷ [])

abbrev pub get_altitude_callback_period : Function
get_altitude_callback_period = getter 6 0 [] (one u32 ∷ [])

abbrev pub set_air_pressure_callback_threshold : Function
set_air_pressure_callback_threshold = setter 7 3 (one ch ∷ one i32 ∷ one i32 ∷ [])

abbrev pub get_air_pressure_callback_threshold : Function
get_air_pressure_callback_threshold = tuple_getter 8 0 [] (one ch ∷ one i32 ∷ one i32 ∷ []) 3

abbrev pub set_altitude_callback_threshold : Function
set_altitude_callback_threshold = setter 9 3 (one ch ∷ one i32 ∷ one i32 ∷ [])

abbrev pub get_altitude_callback_threshold : Function
get_altitude_callback_threshold = tuple_getter 10 0 [] (one ch ∷ one i32 ∷ one i32 ∷ []) 3

abbrev pub set_debounce_period : Function
set_debounce_period = setter 11 1 (one u32 ∷ [])

abbrev pub get_debounce_period : Function
get_debounce_period = getter 12 0 [] (one u32 ∷ [])

abbrev pub set_reference_air_pressure : Function
set_reference_air_pressure = setter 13 1 (one i32 ∷ [])

abbrev pub get_chip_temperature : Function
get_chip_temperature = getter 14 0 [] (one i16 ∷ [])

abbrev pub get_reference_air_pressure : Function
get_reference_air_pressure = getter 19 0 [] (one i32 ∷ [])

abbrev pub set_averaging : Function
set_averaging = setter 20 3 (one u8 ∷ one u8 ∷ one u8 ∷ [])

abbrev pub get_averaging : Function
get_averaging = tuple_getter 21 0 [] (one u8 ∷ one u8 ∷ one u8 ∷ []) 3

abbrev pub get_identity : Function
get_identity =
    tuple_getter 255 0 [] (many 8 str ∷ many 8 str ∷ one ch ∷ many 3 u8 ∷ many 3 u8 ∷ one u16 ∷ [])
      6

-- The constructor and the methods.
abbrev pub binding : Binding
binding = record {
  api_version = (2, 0, 1);
  flags =
      (1, always_true)
      ∷ (2, always_true)
      ∷ (3, set_true)
      ∷ (4, always_true)
      ∷ (5, set_true)
      ∷ (6, always_true)
      ∷ (7, set_true)
      ∷ (8, always_true)
      ∷ (9, set_true)
      ∷ (10, always_true)
      ∷ (11, set_true)
      ∷ (12, always_true)
      ∷ (13, set_false)
      ∷ (14, always_true)
      ∷ (15, always_false)
      ∷ (16, always_false)
      ∷ (17, always_false)
      ∷ (18, always_false)
      ∷ (19, always_true)
      ∷ (20, set_false)
      ∷ (21, always_true)
      ∷ (255, always_true)
      ∷ [];
  formats = (15, one i32 ∷ []) ∷ (16, one i32 ∷ []) ∷ (17, one i32 ∷ []) ∷ (18, one i32 ∷ []) ∷ [];
  functions =
      get_air_pressure ∷ get_altitude ∷ set_air_pressure_callback_period
      ∷ get_air_pressure_callback_period ∷ set_altitude_callback_period
      ∷ get_altitude_callback_period ∷ set_air_pressure_callback_threshold
      ∷ get_air_pressure_callback_threshold ∷ set_altitude_callback_threshold
      ∷ get_altitude_callback_threshold ∷ set_debounce_period ∷ get_debounce_period
      ∷ set_reference_air_pressure ∷ get_chip_temperature ∷ get_reference_air_pressure
      ∷ set_averaging ∷ get_averaging ∷ get_identity ∷ [];
}
