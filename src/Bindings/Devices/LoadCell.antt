-- ===== src/Bindings/Devices/LoadCell.antt =====
-- scripts/tinkerforge/bricklet_load_cell.py: class BrickletLoadCell.
use lufthansa.Base.{[], ◌∷◌}
use lufthansa.Format.{ch, i32, str, u16, u32, u8, one, many}
use lufthansa.State.{always_false, always_true, set_false, set_true}
use lufthansa.Bindings.Class.{Function, Binding, setter, getter, tuple_getter}

abbrev pub get_weight : Function
get_weight = getter 1 0 [] (one i32 ∷ [])

abbrev pub set_weight_callback_period : Function
set_weight_callback_period = setter 2 1 (one u32 ∷ [])

abbrev pub get_weight_callback_period : Function
get_weight_callback_period = getter 3 0 [] (one u32 ∷ [])

abbrev pub set_weight_callback_threshold : Function
set_weight_callback_threshold = setter 4 3 (one ch ∷ one i32 ∷ one i32 ∷ [])

abbrev pub get_weight_callback_threshold : Function
get_weight_callback_threshold = tuple_getter 5 0 [] (one ch ∷ one i32 ∷ one i32 ∷ []) 3

abbrev pub set_debounce_period : Function
set_debounce_period = setter 6 1 (one u32 ∷ [])

abbrev pub get_debounce_period : Function
get_debounce_period = getter 7 0 [] (one u32 ∷ [])

abbrev pub set_moving_average : Function
set_moving_average = setter 8 1 (one u8 ∷ [])

abbrev pub get_moving_average : Function
get_moving_average = getter 9 0 [] (one u8 ∷ [])

abbrev pub led_on : Function
led_on = setter 10 0 []

abbrev pub led_off : Function
led_off = setter 11 0 []

abbrev pub is_led_on : Function
is_led_on = getter 12 0 [] (one u8 ∷ [])

abbrev pub calibrate : Function
calibrate = setter 13 1 (one u32 ∷ [])

abbrev pub tare : Function
tare = setter 14 0 []

abbrev pub set_configuration : Function
set_configuration = setter 15 2 (one u8 ∷ one u8 ∷ [])

abbrev pub get_configuration : Function
get_configuration = tuple_getter 16 0 [] (one u8 ∷ one u8 ∷ []) 2

abbrev pub get_identity : Function
get_identity =
    tuple_getter 255 0 [] (many 8 str ∷ many 8 str ∷ one ch ∷ many 3 u8 ∷ many 3 u8 ∷ one u16 ∷ [])
      6

-- The constructor and the methods.
abbrev pub binding : Binding
binding = record {
  api_version = (2, 0, 0);
  flags =
      (1, always_true)
      ∷ (2, set_true)
      ∷ (3, always_true)
      ∷ (4, set_true)
      ∷ (5, always_true)
      ∷ (6, set_true)
      ∷ (7, always_true)
      ∷ (8, set_false)
      ∷ (9, always_true)
      ∷ (10, set_false)
      ∷ (11, set_false)
      ∷ (12, always_true)
      ∷ (13, set_false)
      ∷ (14, set_false)
      ∷ (15, set_false)
      ∷ (16, always_true)
      ∷ (17, always_false)
      ∷ (18, always_false)
      ∷ (255, always_true)
      ∷ [];
  formats = (17, one i32 ∷ []) ∷ (18, one i32 ∷ []) ∷ [];
  functions =
      get_weight ∷ set_weight_callback_period ∷ get_weight_callback_period
      ∷ set_weight_callback_threshold ∷ get_weight_callback_threshold ∷ set_debounce_period
      ∷ get_debounce_period ∷ set_moving_average ∷ get_moving_average ∷ led_on ∷ led_off ∷ is_led_on
      ∷ calibrate ∷ tare ∷ set_configuration ∷ get_configuration ∷ get_identity ∷ [];
}
