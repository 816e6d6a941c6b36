-- ===== src/Bindings/Devices/Rs232.antt =====
-- scripts/tinkerforge/bricklet_rs232.py: class BrickletRS232.
use lufthansa.Base.{[], ◌∷◌}
use lufthansa.Format.{ch, flag, str, u16, u8, one, many}
use lufthansa.State.{always_false, always_true, set_false, set_true}
use lufthansa.Bindings.Class.{Function, Binding, setter, getter, tuple_getter}

abbrev pub write : Function
write = getter 1 2 (many 60 ch ∷ one u8 ∷ []) (one u8 ∷ [])

abbrev pub read : Function
read = tuple_getter 2 0 [] (many 60 ch ∷ one u8 ∷ []) 2

abbrev pub enable_read_callback : Function
enable_read_callback = setter 3 0 []

abbrev pub disable_read_callback : Function
disable_read_callback = setter 4 0 []

abbrev pub is_read_callback_enabled : Function
is_read_callback_enabled = getter 5 0 [] (one flag ∷ [])

abbrev pub set_configuration : Function
set_configuration = setter 6 6 (one u8 ∷ one u8 ∷ one u8 ∷ one u8 ∷ one u8 ∷ one u8 ∷ [])

abbrev pub get_configuration : Function
get_configuration = tuple_getter 7 0 [] (one u8 ∷ one u8 ∷ one u8 ∷ one u8 ∷ one u8 ∷ one u8 ∷ []) 6

abbrev pub get_identity : Function
get_identity =
    tuple_getter 255 0 [] (many 8 str ∷ many 8 str ∷ one ch ∷ many 3 u8 ∷ many 3 u8 ∷ one u16 ∷ [])
      6

-- The constructor and the methods.
abbrev pub binding : Binding
binding = record {
  api_version = (2, 0, 0);
  flags =
      (1, always_true)
      ∷ (2, always_true)
      ∷ (3, set_true)
      ∷ (4, set_true)
      ∷ (5, always_true)
      ∷ (6, set_false)
      ∷ (7, always_true)
      ∷ (8, always_false)
      ∷ (255, always_true)
      ∷ [];
  formats = (8, many 60 ch ∷ one u8 ∷ []) ∷ [];
  functions =
      write ∷ read ∷ enable_read_callback ∷ disable_read_callback ∷ is_read_callback_enabled
      ∷ set_configuration ∷ get_configuration ∷ get_identity ∷ [];
}
