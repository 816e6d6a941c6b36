-- ===== src/Bindings/Devices/MotionDetector.antt =====
-- scripts/tinkerforge/bricklet_motion_detector.py: class BrickletMotionDetector.
use lufthansa.Base.{[], ◌∷◌}
use lufthansa.Format.{ch, str, u16, u8, one, many}
use lufthansa.State.{always_false, always_true}
use lufthansa.Bindings.Class.{Function, Binding, getter, tuple_getter}

abbrev pub get_motion_detected : Function
get_motion_detected = getter 1 0 [] (one u8 ∷ [])

abbrev pub get_identity : Function
get_identity =
    tuple_getter 255 0 [] (many 8 str ∷ many 8 str ∷ one ch ∷ many 3 u8 ∷ many 3 u8 ∷ one u16 ∷ [])
      6

-- The constructor and the methods.
abbrev pub binding : Binding
binding = record {
  api_version = (2, 0, 0);
  flags = (1, always_true) ∷ (2, always_false) ∷ (3, always_false) ∷ (255, always_true) ∷ [];
  formats = (2, []) ∷ (3, []) ∷ [];
  functions = get_motion_detected ∷ get_identity ∷ [];
}
