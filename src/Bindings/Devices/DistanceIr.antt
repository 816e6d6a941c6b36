-- ===== src/Bindings/Devices/DistanceIr.antt =====
-- scripts/tinkerforge/bricklet_distance_ir.py: class BrickletDistanceIR.
use lufthansa.Base.{[], ◌∷◌}
use lufthansa.Format.{ch, i16, str, u16, u32, u8, one, many}
use lufthansa.State.{always_false, always_true, set_false, set_true}
use lufthansa.Bindings.Class.{Function, Binding, setter, getter, tuple_getter}

abbrev pub get_distance : Function
get_distance = getter 1 0 [] (one u16 ∷ [])

abbrev pub get_analog_value : Function
get_analog_value = getter 2 0 [] (one u16 ∷ [])

abbrev pub set_sampling_point : Function
set_sampling_point = setter 3 2 (one u8 ∷ one u16 ∷ [])

abbrev pub get_sampling_point : Function
get_sampling_point = getter 4 1 (one u8 ∷ []) (one u16 ∷ [])

abbrev pub set_distance_callback_period : Function
set_distance_callback_period = setter 5 1 (one u32 ∷ [])

abbrev pub get_distance_callback_period : Function
get_distance_callback_period = getter 6 0 [] (one u32 ∷ [])

abbrev pub set_analog_value_callback_period : Function
set_analog_value_callback_period = setter 7 1 (one u32 ∷ [])

abbrev pub get_analog_value_callback_period : Function
get_analog_value_callback_period = getter 8 0 [] (one u32 ∷ [])

abbrev pub set_distance_callback_threshold : Function
set_distance_callback_threshold = setter 9 3 (one ch ∷ one i16 ∷ one i16 ∷ [])

abbrev pub get_distance_callback_threshold : Function
get_distance_callback_threshold = tuple_getter 10 0 [] (one ch ∷ one i16 ∷ one i16 ∷ []) 3

abbrev pub set_analog_value_callback_threshold : Function
set_analog_value_callback_threshold = setter 11 3 (one ch ∷ one u16 ∷ one u16 ∷ [])

abbrev pub get_analog_value_callback_threshold : Function
get_analog_value_callback_threshold = tuple_getter 12 0 [] (one ch ∷ one u16 ∷ one u16 ∷ []) 3

abbrev pub set_debounce_period : Function
set_debounce_period = setter 13 1 (one u32 ∷ [])

abbrev pub get_debounce_period : Function
get_debounce_period = getter 14 0 [] (one u32 ∷ [])

abbrev pub get_identity : Function
get_identity =
    tuple_getter 255 0 [] (many 8 str ∷ many 8 str ∷ one ch ∷ many 3 u8 ∷ many 3 u8 ∷ one u16 ∷ [])
      6

-- The constructor and the methods.
abbrev pub binding : Binding
binding = record {
  api_version = (2, 0, 0);
  flags =
      (1, always_true)
      ∷ (2, always_true)
      ∷ (3, set_false)
      ∷ (4, always_true)
      ∷ (5, set_true)
      ∷ (6, always_true)
      ∷ (7, set_true)
      ∷ (8, always_true)
      ∷ (9, set_true)
      ∷ (10, always_true)
      ∷ (11, set_true)
      ∷ (12, always_true)
      ∷ (13, set_true)
      ∷ (14, always_true)
      ∷ (15, always_false)
      ∷ (16, always_false)
      ∷ (17, always_false)
      ∷ (18, always_false)
      ∷ (255, always_true)
      ∷ [];
  formats = (15, one u16 ∷ []) ∷ (16, one u16 ∷ []) ∷ (17, one u16 ∷ []) ∷ (18, one u16 ∷ []) ∷ [];
  functions =
      get_distance ∷ get_analog_value ∷ set_sampling_point ∷ get_sampling_point
      ∷ set_distance_callback_period ∷ get_distance_callback_period
      ∷ set_analog_value_callback_period ∷ get_analog_value_callback_period
      ∷ set_distance_callback_threshold ∷ get_distance_callback_threshold
      ∷ set_analog_value_callback_threshold ∷ get_analog_value_callback_threshold
      ∷ set_debounce_period ∷ get_debounce_period ∷ get_identity ∷ [];
}
