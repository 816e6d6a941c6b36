-- ===== src/Bindings/Devices/PiezoBuzzer.antt =====
-- scripts/tinkerforge/bricklet_piezo_buzzer.py: class BrickletPiezoBuzzer.
use lufthansa.Base.{[], ◌∷◌}
use lufthansa.Format.{ch, str, u16, u32, u8, one, many}
use lufthansa.State.{always_false, always_true, set_false}
use lufthansa.Bindings.Class.{Function, Binding, setter, tuple_getter}

abbrev pub beep : Function
beep = setter 1 1 (one u32 ∷ [])

abbrev pub morse_code : Function
morse_code = setter 2 1 (many 60 str ∷ [])

abbrev pub get_identity : Function
get_identity =
    tuple_getter 255 0 [] (many 8 str ∷ many 8 str ∷ one ch ∷ many 3 u8 ∷ many 3 u8 ∷ one u16 ∷ [])
      6

-- The constructor and the methods.
abbrev pub binding : Binding
binding = record {
  api_version = (2, 0, 0);
  flags =
      (1, set_false)
      ∷ (2, set_false)
      ∷ (3, always_false)
      ∷ (4, always_false)
      ∷ (255, always_true)
      ∷ [];
  formats = (3, []) ∷ (4, []) ∷ [];
  functions = beep ∷ morse_code ∷ get_identity ∷ [];
}
