-- ===== src/Bindings/Devices/SegmentDisplay4x7.antt =====
-- scripts/tinkerforge/bricklet_segment_display_4x7.py: class BrickletSegmentDisplay4x7.
use lufthansa.Base.{[], ◌∷◌}
use lufthansa.Format.{ch, flag, i16, str, u16, u32, u8, one, many}
use lufthansa.State.{always_false, always_true, set_false}
use lufthansa.Bindings.Class.{Function, Binding, setter, getter, tuple_getter}

abbrev pub set_segments : Function
set_segments = setter 1 3 (many 4 u8 ∷ one u8 ∷ one flag ∷ [])

abbrev pub get_segments : Function
get_segments = tuple_getter 2 0 [] (many 4 u8 ∷ one u8 ∷ one flag ∷ []) 3

abbrev pub start_counter : Function
start_counter = setter 3 4 (one i16 ∷ one i16 ∷ one i16 ∷ one u32 ∷ [])

abbrev pub get_counter_value : Function
get_counter_value = getter 4 0 [] (one u16 ∷ [])

abbrev pub get_identity : Function
get_identity =
    tuple_getter 255 0 [] (many 8 str ∷ many 8 str ∷ one ch ∷ many 3 u8 ∷ many 3 u8 ∷ one u16 ∷ [])
      6

-- The constructor and the methods.
abbrev pub binding : Binding
binding = record {
  api_version = (2, 0, 0);
  flags =
      (1, set_false)
      ∷ (2, always_true)
      ∷ (3, set_false)
      ∷ (4, always_true)
      ∷ (5, always_false)
      ∷ (255, always_true)
      ∷ [];
  formats = (5, []) ∷ [];
  functions = set_segments ∷ get_segments ∷ start_counter ∷ get_counter_value ∷ get_identity ∷ [];
}
