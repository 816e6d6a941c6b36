-- ===== src/Bindings/Devices/IndustrialDigitalOut4.antt =====
-- scripts/tinkerforge/bricklet_industrial_digital_out_4.py: class BrickletIndustrialDigitalOut4.
use lufthansa.Base.{[], ◌∷◌}
use lufthansa.Format.{ch, str, u16, u32, u8, one, many}
use lufthansa.State.{always_false, always_true, set_false}
use lufthansa.Bindings.Class.{Function, Binding, setter, getter, tuple_getter}

abbrev pub set_value : Function
set_value = setter 1 1 (one u16 ∷ [])

abbrev pub get_value : Function
get_value = getter 2 0 [] (one u16 ∷ [])

abbrev pub set_monoflop : Function
set_monoflop = setter 3 3 (one u16 ∷ one u16 ∷ one u32 ∷ [])

abbrev pub get_monoflop : Function
get_monoflop = tuple_getter 4 1 (one u8 ∷ []) (one u16 ∷ one u32 ∷ one u32 ∷ []) 3

abbrev pub set_group : Function
set_group = setter 5 1 (many 4 ch ∷ [])

abbrev pub get_group : Function
get_group = getter 6 0 [] (many 4 ch ∷ [])

abbrev pub get_available_for_group : Function
get_available_for_group = getter 7 0 [] (one u8 ∷ [])

abbrev pub set_selected_values : Function
set_selected_values = setter 9 2 (one u16 ∷ one u16 ∷ [])

abbrev pub get_identity : Function
get_identity =
    tuple_getter 255 0 [] (many 8 str ∷ many 8 str ∷ one ch ∷ many 3 u8 ∷ many 3 u8 ∷ one u16 ∷ [])
      6

-- The constructor and the methods.
abbrev pub binding : Binding
binding = record {
  api_version = (2, 0, 0);
  flags =
      (1, set_false)
      ∷ (2, always_true)
      ∷ (3, set_false)
      ∷ (4, always_true)
      ∷ (5, set_false)
      ∷ (6, always_true)
      ∷ (7, always_true)
      ∷ (8, always_false)
      ∷ (9, set_false)
      ∷ (255, always_true)
      ∷ [];
  formats = (8, one u16 ∷ one u16 ∷ []) ∷ [];
  functions =
      set_value ∷ get_value ∷ set_monoflop ∷ get_monoflop ∷ set_group ∷ get_group
      ∷ get_available_for_group ∷ set_selected_values ∷ get_identity ∷ [];
}
