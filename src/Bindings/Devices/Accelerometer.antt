-- ===== src/Bindings/Devices/Accelerometer.antt =====
-- scripts/tinkerforge/bricklet_accelerometer.py: class BrickletAccelerometer.
use lufthansa.Base.{[], ◌∷◌}
use lufthansa.Format.{ch, i16, str, u16, u32, u8, one, many}
use lufthansa.State.{always_false, always_true, set_false, set_true}
use lufthansa.Bindings.Class.{Function, Binding, setter, getter, tuple_getter}

abbrev pub get_acceleration : Function
get_acceleration = tuple_getter 1 0 [] (one i16 ∷ one i16 ∷ one i16 ∷ []) 3

abbrev pub set_acceleration_callback_period : Function
set_acceleration_callback_period = setter 2 1 (one u32 ∷ [])

abbrev pub get_acceleration_callback_period : Function
get_acceleration_callback_period = getter 3 0 [] (one u32 ∷ [])

abbrev pub set_acceleration_callback_threshold : Function
set_acceleration_callback_threshold =
    setter 4 7 (one ch ∷ one i16 ∷ one i16 ∷ one i16 ∷ one i16 ∷ one i16 ∷ one i16 ∷ [])

abbrev pub get_acceleration_callback_threshold : Function
get_acceleration_callback_threshold =
    tuple_getter 5 0 [] (one ch ∷ one i16 ∷ one i16 ∷ one i16 ∷ one i16 ∷ one i16 ∷ one i16 ∷ []) 7

abbrev pub set_debounce_period : Function
set_debounce_period = setter 6 1 (one u32 ∷ [])

abbrev pub get_debounce_period : Function
get_debounce_period = getter 7 0 [] (one u32 ∷ [])

abbrev pub get_temperature : Function
get_temperature = getter 8 0 [] (one i16 ∷ [])

abbrev pub set_configuration : Function
set_configuration = setter 9 3 (one u8 ∷ one u8 ∷ one u8 ∷ [])

abbrev pub get_configuration : Function
get_configuration = tuple_getter 10 0 [] (one u8 ∷ one u8 ∷ one u8 ∷ []) 3

abbrev pub led_on : Function
led_on = setter 11 0 []

abbrev pub led_off : Function
led_off = setter 12 0 []

abbrev pub is_led_on : Function
is_led_on = getter 13 0 [] (one u8 ∷ [])

abbrev pub get_identity : Function
get_identity =
    tuple_getter 255 0 [] (many 8 str ∷ many 8 str ∷ one ch ∷ many 3 u8 ∷ many 3 u8 ∷ one u16 ∷ [])
      6

-- The constructor and the methods.
abbrev pub binding : Binding
binding = record {
  api_version = (2, 0, 0);
  flags =
      (1, always_true)
      ∷ (2, set_true)
      ∷ (3, always_true)
      ∷ (4, set_true)
      ∷ (5, always_true)
      ∷ (6, set_true)
      ∷ (7, always_true)
      ∷ (8, always_true)
      ∷ (9, set_false)
      ∷ (10, always_true)
      ∷ (11, set_false)
      ∷ (12, set_false)
      ∷ (13, always_true)
      ∷ (14, always_false)
      ∷ (15, always_false)
      ∷ (255, always_true)
      ∷ [];
  formats = (14, one i16 ∷ one i16 ∷ one i16 ∷ []) ∷ (15, one i16 ∷ one i16 ∷ one i16 ∷ []) ∷ [];
  functions =
      get_acceleration ∷ set_acceleration_callback_period ∷ get_acceleration_callback_period
      ∷ set_acceleration_callback_threshold ∷ get_acceleration_callback_threshold
      ∷ set_debounce_period ∷ get_debounce_period ∷ get_temperature ∷ set_configuration
      ∷ get_configuration ∷ led_on ∷ led_off ∷ is_led_on ∷ get_identity ∷ [];
}
