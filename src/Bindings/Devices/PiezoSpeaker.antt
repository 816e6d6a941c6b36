-- ===== src/Bindings/Devices/PiezoSpeaker.antt =====
-- scripts/tinkerforge/bricklet_piezo_speaker.py: class BrickletPiezoSpeaker.
use lufthansa.Base.{[], ◌∷◌}
use lufthansa.Format.{ch, flag, str, u16, u32, u8, one, many}
use lufthansa.State.{always_false, always_true, set_false}
use lufthansa.Bindings.Class.{Function, Binding, setter, getter, tuple_getter}

abbrev pub beep : Function
beep = setter 1 2 (one u32 ∷ one u16 ∷ [])

abbrev pub morse_code : Function
morse_code = setter 2 2 (many 60 str ∷ one u16 ∷ [])

abbrev pub calibrate : Function
calibrate = getter 3 0 [] (one flag ∷ [])

abbrev pub get_identity : Function
get_identity =
    tuple_getter 255 0 [] (many 8 str ∷ many 8 str ∷ one ch ∷ many 3 u8 ∷ many 3 u8 ∷ one u16 ∷ [])
      6

-- The constructor and the methods.
abbrev pub binding : Binding
binding = record {
  api_version = (2, 0, 0);
  flags =
      (1, set_false)
      ∷ (2, set_false)
      ∷ (3, always_true)
      ∷ (4, always_false)
      ∷ (5, always_false)
      ∷ (255, always_true)
      ∷ [];
  formats = (4, []) ∷ (5, []) ∷ [];
  functions = beep ∷ morse_code ∷ calibrate ∷ get_identity ∷ [];
}
