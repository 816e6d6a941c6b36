-- ===== src/Bindings/Devices/Io16.antt =====
-- scripts/tinkerforge/bricklet_io16.py: class BrickletIO16.
use lufthansa.Base.{[], ◌∷◌}
use lufthansa.Format.{ch, flag, str, u16, u32, u8, one, many}
use lufthansa.State.{always_false, always_true, set_false, set_true}
use lufthansa.Bindings.Class.{Function, Binding, setter, getter, tuple_getter}

abbrev pub set_port : Function
set_port = setter 1 2 (one ch ∷ one u8 ∷ [])

abbrev pub get_port : Function
get_port = getter 2 1 (one ch ∷ []) (one u8 ∷ [])

abbrev pub set_port_configuration : Function
set_port_configuration = setter 3 4 (one ch ∷ one u8 ∷ one ch ∷ one flag ∷ [])

abbrev pub get_port_configuration : Function
get_port_configuration = tuple_getter 4 1 (one ch ∷ []) (one u8 ∷ one u8 ∷ []) 2

abbrev pub set_debounce_period : Function
set_debounce_period = setter 5 1 (one u32 ∷ [])

abbrev pub get_debounce_period : Function
get_debounce_period = getter 6 0 [] (one u32 ∷ [])

abbrev pub set_port_interrupt : Function
set_port_interrupt = setter 7 2 (one ch ∷ one u8 ∷ [])

abbrev pub get_port_interrupt : Function
get_port_interrupt = getter 8 1 (one ch ∷ []) (one u8 ∷ [])

abbrev pub set_port_monoflop : Function
set_port_monoflop = setter 10 4 (one ch ∷ one u8 ∷ one u8 ∷ one u32 ∷ [])

abbrev pub get_port_monoflop : Function
get_port_monoflop = tuple_getter 11 2 (one ch ∷ one u8 ∷ []) (one u8 ∷ one u32 ∷ one u32 ∷ []) 3

abbrev pub set_selected_values : Function
set_selected_values = setter 13 3 (one ch ∷ one u8 ∷ one u8 ∷ [])

abbrev pub get_edge_count : Function
get_edge_count = getter 14 2 (one u8 ∷ one flag ∷ []) (one u32 ∷ [])

abbrev pub set_edge_count_config : Function
set_edge_count_config = setter 15 3 (one u8 ∷ one u8 ∷ one u8 ∷ [])

abbrev pub get_edge_count_config : Function
get_edge_count_config = tuple_getter 16 1 (one u8 ∷ []) (one u8 ∷ one u8 ∷ []) 2

abbrev pub get_identity : Function
get_identity =
    tuple_getter 255 0 [] (many 8 str ∷ many 8 str ∷ one ch ∷ many 3 u8 ∷ many 3 u8 ∷ one u16 ∷ [])
      6

-- The constructor and the methods.
abbrev pub binding : Binding
binding = record {
  api_version = (2, 0, 1);
  flags =
      (1, set_false)
      ∷ (2, always_true)
      ∷ (3, set_false)
      ∷ (4, always_true)
      ∷ (5, set_true)
      ∷ (6, always_true)
      ∷ (7, set_true)
      ∷ (8, always_true)
      ∷ (9, always_false)
      ∷ (10, set_false)
      ∷ (11, always_true)
      ∷ (12, always_false)
      ∷ (13, set_false)
      ∷ (14, always_true)
      ∷ (15, set_false)
      ∷ (16, always_true)
      ∷ (255, always_true)
      ∷ [];
  formats = (9, one ch ∷ one u8 ∷ one u8 ∷ []) ∷ (12, one ch ∷ one u8 ∷ one u8 ∷ []) ∷ [];
  functions =
      set_port ∷ get_port ∷ set_port_configuration ∷ get_port_configuration ∷ set_debounce_period
      ∷ get_debounce_period ∷ set_port_interrupt ∷ get_port_interrupt ∷ set_port_monoflop
      ∷ get_port_monoflop ∷ set_selected_values ∷ get_edge_count ∷ set_edge_count_config
      ∷ get_edge_count_config ∷ get_identity ∷ [];
}
