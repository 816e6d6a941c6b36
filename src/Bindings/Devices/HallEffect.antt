-- ===== src/Bindings/Devices/HallEffect.antt =====
-- scripts/tinkerforge/bricklet_hall_effect.py: class BrickletHallEffect.
use lufthansa.Base.{[], ◌∷◌}
use lufthansa.Format.{ch, flag, str, u16, u32, u8, one, many}
use lufthansa.State.{always_false, always_true, set_false, set_true}
use lufthansa.Bindings.Class.{Function, Binding, setter, getter, tuple_getter}

abbrev pub get_value : Function
get_value = getter 1 0 [] (one flag ∷ [])

abbrev pub get_edge_count : Function
get_edge_count = getter 2 1 (one flag ∷ []) (one u32 ∷ [])

abbrev pub set_edge_count_config : Function
set_edge_count_config = setter 3 2 (one u8 ∷ one u8 ∷ [])

abbrev pub get_edge_count_config : Function
get_edge_count_config = tuple_getter 4 0 [] (one u8 ∷ one u8 ∷ []) 2

abbrev pub set_edge_interrupt : Function
set_edge_interrupt = setter 5 1 (one u32 ∷ [])

abbrev pub get_edge_interrupt : Function
get_edge_interrupt = getter 6 0 [] (one u32 ∷ [])

abbrev pub set_edge_count_callback_period : Function
set_edge_count_callback_period = setter 7 1 (one u32 ∷ [])

abbrev pub get_edge_count_callback_period : Function
get_edge_count_callback_period = getter 8 0 [] (one u32 ∷ [])

abbrev pub edge_interrupt : Function
edge_interrupt = tuple_getter 9 0 [] (one u32 ∷ one flag ∷ []) 2

abbrev pub get_identity : Function
get_identity =
    tuple_getter 255 0 [] (many 8 str ∷ many 8 str ∷ one ch ∷ many 3 u8 ∷ many 3 u8 ∷ one u16 ∷ [])
      6

-- The constructor and the methods.
abbrev pub binding : Binding
binding = record {
  api_version = (2, 0, 0);
  flags =
      (1, always_true)
      ∷ (2, always_true)
      ∷ (3, set_false)
      ∷ (4, always_true)
      ∷ (5, set_true)
      ∷ (6, always_true)
      ∷ (7, set_true)
      ∷ (8, always_true)
      ∷ (9, always_true)
      ∷ (10, always_false)
      ∷ (255, always_true)
      ∷ [];
  formats = (10, one u32 ∷ one flag ∷ []) ∷ [];
  functions =
      get_value ∷ get_edge_count ∷ set_edge_count_config ∷ get_edge_count_config
      ∷ set_edge_interrupt ∷ get_edge_interrupt ∷ set_edge_count_callback_period
      ∷ get_edge_count_callback_period ∷ edge_interrupt ∷ get_identity ∷ [];
}
