-- ===== src/Bindings/Devices/RemoteSwitch.antt =====
-- scripts/tinkerforge/bricklet_remote_switch.py: class BrickletRemoteSwitch.
use lufthansa.Base.{[], ◌∷◌}
use lufthansa.Format.{ch, str, u16, u32, u8, one, many}
use lufthansa.State.{always_false, always_true, set_false}
use lufthansa.Bindings.Class.{Function, Binding, setter, getter, tuple_getter}

abbrev pub switch_socket : Function
switch_socket = setter 1 3 (one u8 ∷ one u8 ∷ one u8 ∷ [])

abbrev pub get_switching_state : Function
get_switching_state = getter 2 0 [] (one u8 ∷ [])

abbrev pub set_repeats : Function
set_repeats = setter 4 1 (one u8 ∷ [])

abbrev pub get_repeats : Function
get_repeats = getter 5 0 [] (one u8 ∷ [])

abbrev pub switch_socket_a : Function
switch_socket_a = setter 6 3 (one u8 ∷ one u8 ∷ one u8 ∷ [])

abbrev pub switch_socket_b : Function
switch_socket_b = setter 7 3 (one u32 ∷ one u8 ∷ one u8 ∷ [])

abbrev pub dim_socket_b : Function
dim_socket_b = setter 8 3 (one u32 ∷ one u8 ∷ one u8 ∷ [])

abbrev pub switch_socket_c : Function
switch_socket_c = setter 9 3 (one ch ∷ one u8 ∷ one u8 ∷ [])

abbrev pub get_identity : Function
get_identity =
    tuple_getter 255 0 [] (many 8 str ∷ many 8 str ∷ one ch ∷ many 3 u8 ∷ many 3 u8 ∷ one u16 ∷ [])
      6

-- The constructor and the methods.
abbrev pub binding : Binding
binding = record {
  api_version = (2, 0, 1);
  flags =
      (1, set_false)
      ∷ (2, always_true)
      ∷ (3, always_false)
      ∷ (4, set_false)
      ∷ (5, always_true)
      ∷ (6, set_false)
      ∷ (7, set_false)
      ∷ (8, set_false)
      ∷ (9, set_false)
      ∷ (255, always_true)
      ∷ [];
  formats = (3, []) ∷ [];
  functions =
      switch_socket ∷ get_switching_state ∷ set_repeats ∷ get_repeats ∷ switch_socket_a
      ∷ switch_socket_b ∷ dim_socket_b ∷ switch_socket_c ∷ get_identity ∷ [];
}
