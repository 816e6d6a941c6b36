-- ===== src/Bindings/Devices/AmbientLightV2.antt =====
-- scripts/tinkerforge/bricklet_ambient_light_v2.py: class BrickletAmbientLightV2.
use lufthansa.Base.{[], ◌∷◌}
use lufthansa.Format.{ch, str, u16, u32, u8, one, many}
use lufthansa.State.{always_false, always_true, set_false, set_true}
use lufthansa.Bindings.Class.{Function, Binding, setter, getter, tuple_getter}

abbrev pub get_illuminance : Function
get_illuminance = getter 1 0 [] (one u32 ∷ [])

abbrev pub set_illuminance_callback_period : Function
set_illuminance_callback_period = setter 2 1 (one u32 ∷ [])

abbrev pub get_illuminance_callback_period : Function
get_illuminance_callback_period = getter 3 0 [] (one u32 ∷ [])

abbrev pub set_illuminance_callback_threshold : Function
set_illuminance_callback_threshold = setter 4 3 (one ch ∷ one u32 ∷ one u32 ∷ [])

abbrev pub get_illuminance_callback_threshold : Function
get_illuminance_callback_threshold = tuple_getter 5 0 [] (one ch ∷ one u32 ∷ one u32 ∷ []) 3

abbrev pub set_debounce_period : Function
set_debounce_period = setter 6 1 (one u32 ∷ [])

abbrev pub get_debounce_period : Function
get_debounce_period = getter 7 0 [] (one u32 ∷ [])

abbrev pub set_configuration : Function
set_configuration = setter 8 2 (one u8 ∷ one u8 ∷ [])

abbrev pub get_configuration : Function
get_configuration = tuple_getter 9 0 [] (one u8 ∷ one u8 ∷ []) 2

abbrev pub get_identity : Function
get_identity =
    tuple_getter 255 0 [] (many 8 str ∷ many 8 str ∷ one ch ∷ many 3 u8 ∷ many 3 u8 ∷ one u16 ∷ [])
      6

-- The constructor and the methods.
abbrev pub binding : Binding
binding = record {
  api_version = (2, 0, 0);
  flags =
      (1, always_true)
      ∷ (2, set_true)
      ∷ (3, always_true)
      ∷ (4, set_true)
      ∷ (5, always_true)
      ∷ (6, set_true)
      ∷ (7, always_true)
      ∷ (8, set_false)
      ∷ (9, always_true)
      ∷ (10, always_false)
      ∷ (11, always_false)
      ∷ (255, always_true)
      ∷ [];
  formats = (10, one u32 ∷ []) ∷ (11, one u32 ∷ []) ∷ [];
  functions =
      get_illuminance ∷ set_illuminance_callback_period ∷ get_illuminance_callback_period
      ∷ set_illuminance_callback_threshold ∷ get_illuminance_callback_threshold
      ∷ set_debounce_period ∷ get_debounce_period ∷ set_configuration ∷ get_configuration
      ∷ get_identity ∷ [];
}
