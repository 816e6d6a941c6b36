-- ===== src/Bindings/Devices/Gps.antt =====
-- scripts/tinkerforge/bricklet_gps.py: class BrickletGPS.
use lufthansa.Base.{[], ◌∷◌}
use lufthansa.Format.{ch, str, u16, u32, u8, one, many}
use lufthansa.State.{always_false, always_true, set_false, set_true}
use lufthansa.Bindings.Class.{Function, Binding, setter, getter, tuple_getter}

abbrev pub get_coordinates : Function
get_coordinates =
    tuple_getter 1 0 []
      (one u32 ∷ one ch ∷ one u32 ∷ one ch ∷ one u16 ∷ one u16 ∷ one u16 ∷ one u16 ∷ []) 8

abbrev pub get_status : Function
get_status = tuple_getter 2 0 [] (one u8 ∷ one u8 ∷ one u8 ∷ []) 3

abbrev pub get_altitude : Function
get_altitude = tuple_getter 3 0 [] (one u32 ∷ one u32 ∷ []) 2

abbrev pub get_motion : Function
get_motion = tuple_getter 4 0 [] (one u32 ∷ one u32 ∷ []) 2

abbrev pub get_date_time : Function
get_date_time = tuple_getter 5 0 [] (one u32 ∷ one u32 ∷ []) 2

abbrev pub restart : Function
restart = setter 6 1 (one u8 ∷ [])

abbrev pub set_coordinates_callback_period : Function
set_coordinates_callback_period = setter 7 1 (one u32 ∷ [])

abbrev pub get_coordinates_callback_period : Function
get_coordinates_callback_period = getter 8 0 [] (one u32 ∷ [])

abbrev pub set_status_callback_period : Function
set_status_callback_period = setter 9 1 (one u32 ∷ [])

abbrev pub get_status_callback_period : Function
get_status_callback_period = getter 10 0 [] (one u32 ∷ [])

abbrev pub set_altitude_callback_period : Function
set_altitude_callback_period = setter 11 1 (one u32 ∷ [])

abbrev pub get_altitude_callback_period : Function
get_altitude_callback_period = getter 12 0 [] (one u32 ∷ [])

abbrev pub set_motion_callback_period : Function
set_motion_callback_period = setter 13 1 (one u32 ∷ [])

abbrev pub get_motion_callback_period : Function
get_motion_callback_period = getter 14 0 [] (one u32 ∷ [])

abbrev pub set_date_time_callback_period : Function
set_date_time_callback_period = setter 15 1 (one u32 ∷ [])

abbrev pub get_date_time_callback_period : Function
get_date_time_callback_period = getter 16 0 [] (one u32 ∷ [])

abbrev pub get_identity : Function
get_identity =
    tuple_getter 255 0 [] (many 8 str ∷ many 8 str ∷ one ch ∷ many 3 u8 ∷ many 3 u8 ∷ one u16 ∷ [])
      6

-- The constructor and the methods.
abbrev pub binding : Binding
binding = record {
  api_version = (2, 0, 0);
  flags =
      (1, always_true)
      ∷ (2, always_true)
      ∷ (3, always_true)
      ∷ (4, always_true)
      ∷ (5, always_true)
      ∷ (6, set_false)
      ∷ (7, set_true)
      ∷ (8, always_true)
      ∷ (9, set_true)
      ∷ (10, always_true)
      ∷ (11, set_true)
      ∷ (12, always_true)
      ∷ (13, set_true)
      ∷ (14, always_true)
      ∷ (15, set_true)
      ∷ (16, always_true)
      ∷ (17, always_false)
      ∷ (18, always_false)
      ∷ (19, always_false)
      ∷ (20, always_false)
      ∷ (21, always_false)
      ∷ (255, always_true)
      ∷ [];
  formats =
      (17, one u32 ∷ one ch ∷ one u32 ∷ one ch ∷ one u16 ∷ one u16 ∷ one u16 ∷ one u16 ∷ [])
      ∷ (18, one u8 ∷ one u8 ∷ one u8 ∷ [])
      ∷ (19, one u32 ∷ one u32 ∷ [])
      ∷ (20, one u32 ∷ one u32 ∷ [])
      ∷ (21, one u32 ∷ one u32 ∷ [])
      ∷ [];
  functions =
      get_coordinates ∷ get_status ∷ get_altitude ∷ get_motion ∷ get_date_time ∷ restart
      ∷ set_coordinates_callback_period ∷ get_coordinates_callback_period
      ∷ set_status_callback_period ∷ get_status_callback_period ∷ set_altitude_callback_period
      ∷ get_altitude_callback_period ∷ set_motion_callback_period ∷ get_motion_callback_period
      ∷ set_date_time_callback_period ∷ get_date_time_callback_period ∷ get_identity ∷ [];
}
