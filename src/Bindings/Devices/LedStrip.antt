-- ===== src/Bindings/Devices/LedStrip.antt =====
-- scripts/tinkerforge/bricklet_led_strip.py: class BrickletLEDStrip.
use lufthansa.Base.{[], ◌∷◌}
use lufthansa.Format.{ch, str, u16, u32, u8, one, many}
use lufthansa.State.{always_false, always_true, set_false}
use lufthansa.Bindings.Class.{Function, Binding, setter, getter, tuple_getter}

abbrev pub set_rgb_values : Function
set_rgb_values = setter 1 5 (one u16 ∷ one u8 ∷ many 16 u8 ∷ many 16 u8 ∷ many 16 u8 ∷ [])

abbrev pub get_rgb_values : Function
get_rgb_values =
    tuple_getter 2 2 (one u16 ∷ one u8 ∷ []) (many 16 u8 ∷ many 16 u8 ∷ many 16 u8 ∷ []) 3

abbrev pub set_frame_duration : Function
set_frame_duration = setter 3 1 (one u16 ∷ [])

abbrev pub get_frame_duration : Function
get_frame_duration = getter 4 0 [] (one u16 ∷ [])

abbrev pub get_supply_voltage : Function
get_supply_voltage = getter 5 0 [] (one u16 ∷ [])

abbrev pub set_clock_frequency : Function
set_clock_frequency = setter 7 1 (one u32 ∷ [])

abbrev pub get_clock_frequency : Function
get_clock_frequency = getter 8 0 [] (one u32 ∷ [])

abbrev pub set_chip_type : Function
set_chip_type = setter 9 1 (one u16 ∷ [])

abbrev pub get_chip_type : Function
get_chip_type = getter 10 0 [] (one u16 ∷ [])

abbrev pub get_identity : Function
get_identity =
    tuple_getter 255 0 [] (many 8 str ∷ many 8 str ∷ one ch ∷ many 3 u8 ∷ many 3 u8 ∷ one u16 ∷ [])
      6

-- The constructor and the methods.
abbrev pub binding : Binding
binding = record {
  api_version = (2, 0, 2);
  flags =
      (1, set_false)
      ∷ (2, always_true)
      ∷ (3, set_false)
      ∷ (4, always_true)
      ∷ (5, always_true)
      ∷ (6, always_false)
      ∷ (7, set_false)
      ∷ (8, always_true)
      ∷ (9, set_false)
      ∷ (10, always_true)
      ∷ (255, always_true)
      ∷ [];
  formats = (6, one u16 ∷ []) ∷ [];
  functions =
      set_rgb_values ∷ get_rgb_values ∷ set_frame_duration ∷ get_frame_duration ∷ get_supply_voltage
      ∷ set_clock_frequency ∷ get_clock_frequency ∷ set_chip_type ∷ get_chip_type ∷ get_identity
      ∷ [];
}
