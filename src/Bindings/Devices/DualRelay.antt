-- ===== src/Bindings/Devices/DualRelay.antt =====
-- scripts/tinkerforge/bricklet_dual_relay.py: class BrickletDualRelay.
use lufthansa.Base.{[], ◌∷◌}
use lufthansa.Format.{ch, flag, str, u16, u32, u8, one, many}
use lufthansa.State.{always_false, always_true, set_false}
use lufthansa.Bindings.Class.{Function, Binding, setter, tuple_getter}

abbrev pub set_state : Function
set_state = setter 1 2 (one flag ∷ one flag ∷ [])

abbrev pub get_state : Function
get_state = tuple_getter 2 0 [] (one flag ∷ one flag ∷ []) 2

abbrev pub set_monoflop : Function
set_monoflop = setter 3 3 (one u8 ∷ one flag ∷ one u32 ∷ [])

abbrev pub get_monoflop : Function
get_monoflop = tuple_getter 4 1 (one u8 ∷ []) (one flag ∷ one u32 ∷ one u32 ∷ []) 3

abbrev pub set_selected_state : Function
set_selected_state = setter 6 2 (one u8 ∷ one flag ∷ [])

abbrev pub get_identity : Function
get_identity =
    tuple_getter 255 0 [] (many 8 str ∷ many 8 str ∷ one ch ∷ many 3 u8 ∷ many 3 u8 ∷ one u16 ∷ [])
      6

-- The constructor and the methods.
abbrev pub binding : Binding
binding = record {
  api_version = (2, 0, 0);
  flags =
      (1, set_false)
      ∷ (2, always_true)
      ∷ (3, set_false)
      ∷ (4, always_true)
      ∷ (5, always_false)
      ∷ (6, set_false)
      ∷ (255, always_true)
      ∷ [];
  formats = (5, one u8 ∷ one flag ∷ []) ∷ [];
  functions =
      set_state ∷ get_state ∷ set_monoflop ∷ get_monoflop ∷ set_selected_state ∷ get_identity ∷ [];
}
