-- ===== src/Bindings/Devices/IndustrialDigitalIn4.antt =====
-- scripts/tinkerforge/bricklet_industrial_digital_in_4.py: class BrickletIndustrialDigitalIn4.
use lufthansa.Base.{[], ◌∷◌}
use lufthansa.Format.{ch, flag, str, u16, u32, u8, one, many}
use lufthansa.State.{always_false, always_true, set_false, set_true}
use lufthansa.Bindings.Class.{Function, Binding, setter, getter, tuple_getter}

abbrev pub get_value : Function
get_value = getter 1 0 [] (one u16 ∷ [])

abbrev pub set_group : Function
set_group = setter 2 1 (many 4 ch ∷ [])

abbrev pub get_group : Function
get_group = getter 3 0 [] (many 4 ch ∷ [])

abbrev pub get_available_for_group : Function
get_available_for_group = getter 4 0 [] (one u8 ∷ [])

abbrev pub set_debounce_period : Function
set_debounce_period = setter 5 1 (one u32 ∷ [])

abbrev pub get_debounce_period : Function
get_debounce_period = getter 6 0 [] (one u32 ∷ [])

abbrev pub set_interrupt : Function
set_interrupt = setter 7 1 (one u16 ∷ [])

abbrev pub get_interrupt : Function
get_interrupt = getter 8 0 [] (one u16 ∷ [])

abbrev pub get_edge_count : Function
get_edge_count = getter 10 2 (one u8 ∷ one flag ∷ []) (one u32 ∷ [])

abbrev pub set_edge_count_config : Function
set_edge_count_config = setter 11 3 (one u16 ∷ one u8 ∷ one u8 ∷ [])

abbrev pub get_edge_count_config : Function
get_edge_count_config = tuple_getter 12 1 (one u8 ∷ []) (one u8 ∷ one u8 ∷ []) 2

abbrev pub get_identity : Function
get_identity =
    tuple_getter 255 0 [] (many 8 str ∷ many 8 str ∷ one ch ∷ many 3 u8 ∷ many 3 u8 ∷ one u16 ∷ [])
      6

-- The constructor and the methods.
abbrev pub binding : Binding
binding = record {
  api_version = (2, 0, 1);
  flags =
      (1, always_true)
      ∷ (2, set_false)
      ∷ (3, always_true)
      ∷ (4, always_true)
      ∷ (5, set_true)
      ∷ (6, always_true)
      ∷ (7, set_true)
      ∷ (8, always_true)
      ∷ (9, always_false)
      ∷ (10, always_true)
      ∷ (11, set_false)
      ∷ (12, always_true)
      ∷ (255, always_true)
      ∷ [];
  formats = (9, one u16 ∷ one u16 ∷ []) ∷ [];
  functions =
      get_value ∷ set_group ∷ get_group ∷ get_available_for_group ∷ set_debounce_period
      ∷ get_debounce_period ∷ set_interrupt ∷ get_interrupt ∷ get_edge_count ∷ set_edge_count_config
      ∷ get_edge_count_config ∷ get_identity ∷ [];
}
