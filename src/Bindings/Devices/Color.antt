-- ===== src/Bindings/Devices/Color.antt =====
-- scripts/tinkerforge/bricklet_color.py: class BrickletColor.
use lufthansa.Base.{[], ◌∷◌}
use lufthansa.Format.{ch, str, u16, u32, u8, one, many}
use lufthansa.State.{always_false, always_true, set_false, set_true}
use lufthansa.Bindings.Class.{Function, Binding, setter, getter, tuple_getter}

abbrev pub get_color : Function
get_color = tuple_getter 1 0 [] (one u16 ∷ one u16 ∷ one u16 ∷ one u16 ∷ []) 4

abbrev pub set_color_callback_period : Function
set_color_callback_period = setter 2 1 (one u32 ∷ [])

abbrev pub get_color_callback_period : Function
get_color_callback_period = getter 3 0 [] (one u32 ∷ [])

abbrev pub set_color_callback_threshold : Function
set_color_callback_threshold =
    setter 4 9
      (one ch ∷ one u16 ∷ one u16 ∷ one u16 ∷ one u16 ∷ one u16 ∷ one u16 ∷ one u16 ∷ one u16 ∷ [])

abbrev pub get_color_callback_threshold : Function
get_color_callback_threshold =
    tuple_getter 5 0 []
      (one ch ∷ one u16 ∷ one u16 ∷ one u16 ∷ one u16 ∷ one u16 ∷ one u16 ∷ one u16 ∷ one u16 ∷ [])
      9

abbrev pub set_debounce_period : Function
set_debounce_period = setter 6 1 (one u32 ∷ [])

abbrev pub get_debounce_period : Function
get_debounce_period = getter 7 0 [] (one u32 ∷ [])

abbrev pub light_on : Function
light_on = setter 10 0 []

abbrev pub light_off : Function
light_off = setter 11 0 []

abbrev pub is_light_on : Function
is_light_on = getter 12 0 [] (one u8 ∷ [])

abbrev pub set_config : Function
set_config = setter 13 2 (one u8 ∷ one u8 ∷ [])

abbrev pub get_config : Function
get_config = tuple_getter 14 0 [] (one u8 ∷ one u8 ∷ []) 2

abbrev pub get_illuminance : Function
get_illuminance = getter 15 0 [] (one u32 ∷ [])

abbrev pub get_color_temperature : Function
get_color_temperature = getter 16 0 [] (one u16 ∷ [])

abbrev pub set_illuminance_callback_period : Function
set_illuminance_callback_period = setter 17 1 (one u32 ∷ [])

abbrev pub get_illuminance_callback_period : Function
get_illuminance_callback_period = getter 18 0 [] (one u32 ∷ [])

abbrev pub set_color_temperature_callback_period : Function
set_color_temperature_callback_period = setter 19 1 (one u32 ∷ [])

abbrev pub get_color_temperature_callback_period : Function
get_color_temperature_callback_period = getter 20 0 [] (one u32 ∷ [])

abbrev pub get_identity : Function
get_identity =
    tuple_getter 255 0 [] (many 8 str ∷ many 8 str ∷ one ch ∷ many 3 u8 ∷ many 3 u8 ∷ one u16 ∷ [])
      6

-- The constructor and the methods.
abbrev pub binding : Binding
binding = record {
  api_version = (2, 0, 0);
  flags =
      (1, always_true)
      ∷ (2, set_true)
      ∷ (3, always_true)
      ∷ (4, set_true)
      ∷ (5, always_true)
      ∷ (6, set_true)
      ∷ (7, always_true)
      ∷ (8, always_false)
      ∷ (9, always_false)
      ∷ (10, set_false)
      ∷ (11, set_false)
      ∷ (12, always_true)
      ∷ (13, set_false)
      ∷ (14, always_true)
      ∷ (15, always_true)
      ∷ (16, always_true)
      ∷ (17, set_true)
      ∷ (18, always_true)
      ∷ (19, set_true)
      ∷ (20, always_true)
      ∷ (21, always_false)
      ∷ (22, always_false)
      ∷ (255, always_true)
      ∷ [];
  formats =
      (8, one u16 ∷ one u16 ∷ one u16 ∷ one u16 ∷ [])
      ∷ (9, one u16 ∷ one u16 ∷ one u16 ∷ one u16 ∷ [])
      ∷ (21, one u32 ∷ [])
      ∷ (22, one u16 ∷ [])
      ∷ [];
  functions =
      get_color ∷ set_color_callback_period ∷ get_color_callback_period
      ∷ set_color_callback_threshold ∷ get_color_callback_threshold ∷ set_debounce_period
      ∷ get_debounce_period ∷ light_on ∷ light_off ∷ is_light_on ∷ set_config ∷ get_config
      ∷ get_illuminance ∷ get_color_temperature ∷ set_illuminance_callback_period
      ∷ get_illuminance_callback_period ∷ set_color_temperature_callback_period
      ∷ get_color_temperature_callback_period ∷ get_identity ∷ [];
}
