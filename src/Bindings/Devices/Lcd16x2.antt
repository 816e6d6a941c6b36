-- ===== src/Bindings/Devices/Lcd16x2.antt =====
-- scripts/tinkerforge/bricklet_lcd_16x2.py: class BrickletLCD16x2.
use lufthansa.Base.{[], ◌∷◌}
use lufthansa.Format.{ch, flag, str, u16, u8, one, many}
use lufthansa.State.{always_false, always_true, set_false}
use lufthansa.Bindings.Class.{Function, Binding, setter, getter, tuple_getter}

abbrev pub write_line : Function
write_line = setter 1 3 (one u8 ∷ one u8 ∷ many 16 str ∷ [])

abbrev pub clear_display : Function
clear_display = setter 2 0 []

abbrev pub backlight_on : Function
backlight_on = setter 3 0 []

abbrev pub backlight_off : Function
backlight_off = setter 4 0 []

abbrev pub is_backlight_on : Function
is_backlight_on = getter 5 0 [] (one flag ∷ [])

abbrev pub set_config : Function
set_config = setter 6 2 (one flag ∷ one flag ∷ [])

abbrev pub get_config : Function
get_config = tuple_getter 7 0 [] (one flag ∷ one flag ∷ []) 2

abbrev pub is_button_pressed : Function
is_button_pressed = getter 8 1 (one u8 ∷ []) (one flag ∷ [])

abbrev pub set_custom_character : Function
set_custom_character = setter 11 2 (one u8 ∷ many 8 u8 ∷ [])

abbrev pub get_custom_character : Function
get_custom_character = getter 12 1 (one u8 ∷ []) (many 8 u8 ∷ [])

abbrev pub get_identity : Function
get_identity =
    tuple_getter 255 0 [] (many 8 str ∷ many 8 str ∷ one ch ∷ many 3 u8 ∷ many 3 u8 ∷ one u16 ∷ [])
      6

-- The constructor and the methods.
abbrev pub binding : Binding
binding = record {
  api_version = (2, 0, 0);
  flags =
      (1, set_false)
      ∷ (2, set_false)
      ∷ (3, set_false)
      ∷ (4, set_false)
      ∷ (5, always_true)
      ∷ (6, set_false)
      ∷ (7, always_true)
      ∷ (8, always_true)
      ∷ (9, always_false)
      ∷ (10, always_false)
      ∷ (11, set_false)
      ∷ (12, always_true)
      ∷ (255, always_true)
      ∷ [];
  formats = (9, one u8 ∷ []) ∷ (10, one u8 ∷ []) ∷ [];
  functions =
      write_line ∷ clear_display ∷ backlight_on ∷ backlight_off ∷ is_backlight_on ∷ set_config
      ∷ get_config ∷ is_button_pressed ∷ set_custom_character ∷ get_custom_character ∷ get_identity
      ∷ [];
}
