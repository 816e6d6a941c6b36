-- ===== src/Bindings/Devices/Joystick.antt =====
-- scripts/tinkerforge/bricklet_joystick.py: class BrickletJoystick.
use lufthansa.Base.{[], ◌∷◌}
use lufthansa.Format.{ch, flag, i16, str, u16, u32, u8, one, many}
use lufthansa.State.{always_false, always_true, set_false, set_true}
use lufthansa.Bindings.Class.{Function, Binding, setter, getter, tuple_getter}

abbrev pub get_position : Function
get_position = tuple_getter 1 0 [] (one i16 ∷ one i16 ∷ []) 2

abbrev pub is_pressed : Function
is_pressed = getter 2 0 [] (one flag ∷ [])

abbrev pub get_analog_value : Function
get_analog_value = tuple_getter 3 0 [] (one u16 ∷ one u16 ∷ []) 2

abbrev pub calibrate : Function
calibrate = setter 4 0 []

abbrev pub set_position_callback_period : Function
set_position_callback_period = setter 5 1 (one u32 ∷ [])

abbrev pub get_position_callback_period : Function
get_position_callback_period = getter 6 0 [] (one u32 ∷ [])

abbrev pub set_analog_value_callback_period : Function
set_analog_value_callback_period = setter 7 1 (one u32 ∷ [])

abbrev pub get_analog_value_callback_period : Function
get_analog_value_callback_period = getter 8 0 [] (one u32 ∷ [])

abbrev pub set_position_callback_threshold : Function
set_position_callback_threshold = setter 9 5 (one ch ∷ one i16 ∷ one i16 ∷ one i16 ∷ one i16 ∷ [])

abbrev pub get_position_callback_threshold : Function
get_position_callback_threshold =
    tuple_getter 10 0 [] (one ch ∷ one i16 ∷ one i16 ∷ one i16 ∷ one i16 ∷ []) 5

abbrev pub set_analog_value_callback_threshold : Function
set_analog_value_callback_threshold =
    setter 11 5 (one ch ∷ one u16 ∷ one u16 ∷ one u16 ∷ one u16 ∷ [])

abbrev pub get_analog_value_callback_threshold : Function
get_analog_value_callback_threshold =
    tuple_getter 12 0 [] (one ch ∷ one u16 ∷ one u16 ∷ one u16 ∷ one u16 ∷ []) 5

abbrev pub set_debounce_period : Function
set_debounce_period = setter 13 1 (one u32 ∷ [])

abbrev pub get_debounce_period : Function
get_debounce_period = getter 14 0 [] (one u32 ∷ [])

abbrev pub get_identity : Function
get_identity =
    tuple_getter 255 0 [] (many 8 str ∷ many 8 str ∷ one ch ∷ many 3 u8 ∷ many 3 u8 ∷ one u16 ∷ [])
      6

-- The constructor and the methods.
abbrev pub binding : Binding
binding = record {
  api_version = (2, 0, 0);
  flags =
      (1, always_true)
      ∷ (2, always_true)
      ∷ (3, always_true)
      ∷ (4, set_false)
      ∷ (5, set_true)
      ∷ (6, always_true)
      ∷ (7, set_true)
      ∷ (8, always_true)
      ∷ (9, set_true)
      ∷ (10, always_true)
      ∷ (11, set_true)
      ∷ (12, always_true)
      ∷ (13, set_true)
      ∷ (14, always_true)
      ∷ (15, always_false)
      ∷ (16, always_false)
      ∷ (17, always_false)
      ∷ (18, always_false)
      ∷ (19, always_false)
      ∷ (20, always_false)
      ∷ (255, always_true)
      ∷ [];
  formats =
      (15, one i16 ∷ one i16 ∷ [])
      ∷ (16, one u16 ∷ one u16 ∷ [])
      ∷ (17, one i16 ∷ one i16 ∷ [])
      ∷ (18, one u16 ∷ one u16 ∷ [])
      ∷ (19, [])
      ∷ (20, [])
      ∷ [];
  functions =
      get_position ∷ is_pressed ∷ get_analog_value ∷ calibrate ∷ set_position_callback_period
      ∷ get_position_callback_period ∷ set_analog_value_callback_period
      ∷ get_analog_value_callback_period ∷ set_position_callback_threshold
      ∷ get_position_callback_threshold ∷ set_analog_value_callback_threshold
      ∷ get_analog_value_callback_threshold ∷ set_debounce_period ∷ get_debounce_period
      ∷ get_identity ∷ [];
}
