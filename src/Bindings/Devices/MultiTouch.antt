-- ===== src/Bindings/Devices/MultiTouch.antt =====
-- scripts/tinkerforge/bricklet_multi_touch.py: class BrickletMultiTouch.
use lufthansa.Base.{[], ◌∷◌}
use lufthansa.Format.{ch, str, u16, u8, one, many}
use lufthansa.State.{always_false, always_true, set_false}
use lufthansa.Bindings.Class.{Function, Binding, setter, getter, tuple_getter}

abbrev pub get_touch_state : Function
get_touch_state = getter 1 0 [] (one u16 ∷ [])

abbrev pub recalibrate : Function
recalibrate = setter 2 0 []

abbrev pub set_electrode_config : Function
set_electrode_config = setter 3 1 (one u16 ∷ [])

abbrev pub get_electrode_config : Function
get_electrode_config = getter 4 0 [] (one u16 ∷ [])

abbrev pub set_electrode_sensitivity : Function
set_electrode_sensitivity = setter 6 1 (one u8 ∷ [])

abbrev pub get_electrode_sensitivity : Function
get_electrode_sensitivity = getter 7 0 [] (one u8 ∷ [])

abbrev pub get_identity : Function
get_identity =
    tuple_getter 255 0 [] (many 8 str ∷ many 8 str ∷ one ch ∷ many 3 u8 ∷ many 3 u8 ∷ one u16 ∷ [])
      6

-- The constructor and the methods.
abbrev pub binding : Binding
binding = record {
  api_version = (2, 0, 0);
  flags =
      (1, always_true)
      ∷ (2, set_false)
      ∷ (3, set_false)
      ∷ (4, always_true)
      ∷ (5, always_false)
      ∷ (6, set_false)
      ∷ (7, always_true)
      ∷ (255, always_true)
      ∷ [];
  formats = (5, one u16 ∷ []) ∷ [];
  functions =
      get_touch_state ∷ recalibrate ∷ set_electrode_config ∷ get_electrode_config
      ∷ set_electrode_sensitivity ∷ get_electrode_sensitivity ∷ get_identity ∷ [];
}
