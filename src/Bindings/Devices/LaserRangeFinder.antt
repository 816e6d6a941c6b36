-- ===== src/Bindings/Devices/LaserRangeFinder.antt =====
-- scripts/tinkerforge/bricklet_laser_range_finder.py: class BrickletLaserRangeFinder.
use lufthansa.Base.{[], ◌∷◌}
use lufthansa.Format.{ch, flag, i16, str, u16, u32, u8, one, many}
use lufthansa.State.{always_false, always_true, set_false, set_true}
use lufthansa.Bindings.Class.{Function, Binding, setter, getter, tuple_getter}

abbrev pub get_distance : Function
get_distance = getter 1 0 [] (one u16 ∷ [])

abbrev pub get_velocity : Function
get_velocity = getter 2 0 [] (one i16 ∷ [])

abbrev pub set_distance_callback_period : Function
set_distance_callback_period = setter 3 1 (one u32 ∷ [])

abbrev pub get_distance_callback_period : Function
get_distance_callback_period = getter 4 0 [] (one u32 ∷ [])

abbrev pub set_velocity_callback_period : Function
set_velocity_callback_period = setter 5 1 (one u32 ∷ [])

abbrev pub get_velocity_callback_period : Function
get_velocity_callback_period = getter 6 0 [] (one u32 ∷ [])

abbrev pub set_distance_callback_threshold : Function
set_distance_callback_threshold = setter 7 3 (one ch ∷ one u16 ∷ one u16 ∷ [])

abbrev pub get_distance_callback_threshold : Function
get_distance_callback_threshold = tuple_getter 8 0 [] (one ch ∷ one u16 ∷ one u16 ∷ []) 3

abbrev pub set_velocity_callback_threshold : Function
set_velocity_callback_threshold = setter 9 3 (one ch ∷ one i16 ∷ one i16 ∷ [])

abbrev pub get_velocity_callback_threshold : Function
get_velocity_callback_threshold = tuple_getter 10 0 [] (one ch ∷ one i16 ∷ one i16 ∷ []) 3

abbrev pub set_debounce_period : Function
set_debounce_period = setter 11 1 (one u32 ∷ [])

abbrev pub get_debounce_period : Function
get_debounce_period = getter 12 0 [] (one u32 ∷ [])

abbrev pub set_moving_average : Function
set_moving_average = setter 13 2 (one u8 ∷ one u8 ∷ [])

abbrev pub get_moving_average : Function
get_moving_average = tuple_getter 14 0 [] (one u8 ∷ one u8 ∷ []) 2

abbrev pub set_mode : Function
set_mode = setter 15 1 (one u8 ∷ [])

abbrev pub get_mode : Function
get_mode = getter 16 0 [] (one u8 ∷ [])

abbrev pub enable_laser : Function
enable_laser = setter 17 0 []

abbrev pub disable_laser : Function
disable_laser = setter 18 0 []

abbrev pub is_laser_enabled : Function
is_laser_enabled = getter 19 0 [] (one flag ∷ [])

abbrev pub get_identity : Function
get_identity =
    tuple_getter 255 0 [] (many 8 str ∷ many 8 str ∷ one ch ∷ many 3 u8 ∷ many 3 u8 ∷ one u16 ∷ [])
      6

-- The constructor and the methods.
abbrev pub binding : Binding
binding = record {
  api_version = (2, 0, 0);
  flags =
      (1, always_true)
      ∷ (2, always_true)
      ∷ (3, set_true)
      ∷ (4, always_true)
      ∷ (5, set_true)
      ∷ (6, always_true)
      ∷ (7, set_true)
      ∷ (8, always_true)
      ∷ (9, set_true)
      ∷ (10, always_true)
      ∷ (11, set_true)
      ∷ (12, always_true)
      ∷ (13, set_false)
      ∷ (14, always_true)
      ∷ (15, set_false)
      ∷ (16, always_true)
      ∷ (17, set_false)
      ∷ (18, set_false)
      ∷ (19, always_true)
      ∷ (20, always_false)
      ∷ (21, always_false)
      ∷ (22, always_false)
      ∷ (23, always_false)
      ∷ (255, always_true)
      ∷ [];
  formats = (20, one u16 ∷ []) ∷ (21, one i16 ∷ []) ∷ (22, one u16 ∷ []) ∷ (23, one i16 ∷ []) ∷ [];
  functions =
      get_distance ∷ get_velocity ∷ set_distance_callback_period ∷ get_distance_callback_period
      ∷ set_velocity_callback_period ∷ get_velocity_callback_period
      ∷ set_distance_callback_threshold ∷ get_distance_callback_threshold
      ∷ set_velocity_callback_threshold ∷ get_velocity_callback_threshold ∷ set_debounce_period
      ∷ get_debounce_period ∷ set_moving_average ∷ get_moving_average ∷ set_mode ∷ get_mode
      ∷ enable_laser ∷ disable_laser ∷ is_laser_enabled ∷ get_identity ∷ [];
}
