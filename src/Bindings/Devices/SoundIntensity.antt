-- ===== src/Bindings/Devices/SoundIntensity.antt =====
-- scripts/tinkerforge/bricklet_sound_intensity.py: class BrickletSoundIntensity.
use lufthansa.Base.{[], ◌∷◌}
use lufthansa.Format.{ch, str, u16, u32, u8, one, many}
use lufthansa.State.{always_false, always_true, set_true}
use lufthansa.Bindings.Class.{Function, Binding, setter, getter, tuple_getter}

abbrev pub get_intensity : Function
get_intensity = getter 1 0 [] (one u16 ∷ [])

abbrev pub set_intensity_callback_period : Function
set_intensity_callback_period = setter 2 1 (one u32 ∷ [])

abbrev pub get_intensity_callback_period : Function
get_intensity_callback_period = getter 3 0 [] (one u32 ∷ [])

abbrev pub set_intensity_callback_threshold : Function
set_intensity_callback_threshold = setter 4 3 (one ch ∷ one u16 ∷ one u16 ∷ [])

abbrev pub get_intensity_callback_threshold : Function
get_intensity_callback_threshold = tuple_getter 5 0 [] (one ch ∷ one u16 ∷ one u16 ∷ []) 3

abbrev pub set_debounce_period : Function
set_debounce_period = setter 6 1 (one u32 ∷ [])

abbrev pub get_debounce_period : Function
get_debounce_period = getter 7 0 [] (one u32 ∷ [])

abbrev pub get_identity : Function
get_identity =
    tuple_getter 255 0 [] (many 8 str ∷ many 8 str ∷ one ch ∷ many 3 u8 ∷ many 3 u8 ∷ one u16 ∷ [])
      6

-- The constructor and the methods.
abbrev pub binding : Binding
binding = record {
  api_version = (2, 0, 0);
  flags =
      (1, always_true)
      ∷ (2, set_true)
      ∷ (3, always_true)
      ∷ (4, set_true)
      ∷ (5, always_true)
      ∷ (6, set_true)
      ∷ (7, always_true)
      ∷ (8, always_false)
      ∷ (9, always_false)
      ∷ (255, always_true)
      ∷ [];
  formats = (8, one u16 ∷ []) ∷ (9, one u16 ∷ []) ∷ [];
  functions =
      get_intensity ∷ set_intensity_callback_period ∷ get_intensity_callback_period
      ∷ set_intensity_callback_threshold ∷ get_intensity_callback_threshold ∷ set_debounce_period
      ∷ get_debounce_period ∷ get_identity ∷ [];
}
