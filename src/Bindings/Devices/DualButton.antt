-- ===== src/Bindings/Devices/DualButton.antt =====
-- scripts/tinkerforge/bricklet_dual_button.py: class BrickletDualButton.
use lufthansa.Base.{[], ◌∷◌}
use lufthansa.Format.{ch, str, u16, u8, one, many}
use lufthansa.State.{always_false, always_true, set_false}
use lufthansa.Bindings.Class.{Function, Binding, setter, tuple_getter}

abbrev pub set_led_state : Function
set_led_state = setter 1 2 (one u8 ∷ one u8 ∷ [])

abbrev pub get_led_state : Function
get_led_state = tuple_getter 2 0 [] (one u8 ∷ one u8 ∷ []) 2

abbrev pub get_button_state : Function
get_button_state = tuple_getter 3 0 [] (one u8 ∷ one u8 ∷ []) 2

abbrev pub set_selected_led_state : Function
set_selected_led_state = setter 5 2 (one u8 ∷ one u8 ∷ [])

abbrev pub get_identity : Function
get_identity =
    tuple_getter 255 0 [] (many 8 str ∷ many 8 str ∷ one ch ∷ many 3 u8 ∷ many 3 u8 ∷ one u16 ∷ [])
      6

-- The constructor and the methods.
abbrev pub binding : Binding
binding = record {
  api_version = (2, 0, 0);
  flags =
      (1, set_false)
      ∷ (2, always_true)
      ∷ (3, always_true)
      ∷ (4, always_false)
      ∷ (5, set_false)
      ∷ (255, always_true)
      ∷ [];
  formats = (4, one u8 ∷ one u8 ∷ one u8 ∷ one u8 ∷ []) ∷ [];
  functions =
      set_led_state ∷ get_led_state ∷ get_button_state ∷ set_selected_led_state ∷ get_identity ∷ [];
}
