-- ===== src/Bindings/Devices/RotaryEncoder.antt =====
-- scripts/tinkerforge/bricklet_rotary_encoder.py: class BrickletRotaryEncoder.
use lufthansa.Base.{[], ◌∷◌}
use lufthansa.Format.{ch, flag, i32, str, u16, u32, u8, one, many}
use lufthansa.State.{always_false, always_true, set_true}
use lufthansa.Bindings.Class.{Function, Binding, setter, getter, tuple_getter}

abbrev pub get_count : Function
get_count = getter 1 1 (one flag ∷ []) (one i32 ∷ [])

abbrev pub set_count_callback_period : Function
set_count_callback_period = setter 2 1 (one u32 ∷ [])

abbrev pub get_count_callback_period : Function
get_count_callback_period = getter 3 0 [] (one u32 ∷ [])

abbrev pub set_count_callback_threshold : Function
set_count_callback_threshold = setter 4 3 (one ch ∷ one i32 ∷ one i32 ∷ [])

abbrev pub get_count_callback_threshold : Function
get_count_callback_threshold = tuple_getter 5 0 [] (one ch ∷ one i32 ∷ one i32 ∷ []) 3

abbrev pub set_debounce_period : Function
set_debounce_period = setter 6 1 (one u32 ∷ [])

abbrev pub get_debounce_period : Function
get_debounce_period = getter 7 0 [] (one u32 ∷ [])

abbrev pub is_pressed : Function
is_pressed = getter 10 0 [] (one flag ∷ [])

abbrev pub get_identity : Function
get_identity =
    tuple_getter 255 0 [] (many 8 str ∷ many 8 str ∷ one ch ∷ many 3 u8 ∷ many 3 u8 ∷ one u16 ∷ [])
      6

-- The constructor and the methods.
abbrev pub binding : Binding
binding = record {
  api_version = (2, 0, 0);
  flags =
      (1, always_true)
      ∷ (2, set_true)
      ∷ (3, always_true)
      ∷ (4, set_true)
      ∷ (5, always_true)
      ∷ (6, set_true)
      ∷ (7, always_true)
      ∷ (8, always_false)
      ∷ (9, always_false)
      ∷ (10, always_true)
      ∷ (11, always_false)
      ∷ (12, always_false)
      ∷ (255, always_true)
      ∷ [];
  formats = (8, one i32 ∷ []) ∷ (9, one i32 ∷ []) ∷ (11, []) ∷ (12, []) ∷ [];
  functions =
      get_count ∷ set_count_callback_period ∷ get_count_callback_period
      ∷ set_count_callback_threshold ∷ get_count_callback_threshold ∷ set_debounce_period
      ∷ get_debounce_period ∷ is_pressed ∷ get_identity ∷ [];
}
