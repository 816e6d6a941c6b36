-- ===== src/Bindings/Devices/BrickImuV2.antt =====
-- scripts/tinkerforge/brick_imu_v2.py: class BrickIMUV2.
use lufthansa.Base.{[], ◌∷◌}
use lufthansa.Format.{ch, flag, i16, i8, str, u16, u32, u8, one, many}
use lufthansa.State.{always_false, always_true, set_false, set_true}
use lufthansa.Bindings.Class.{Function, Binding, setter, getter, tuple_getter}

abbrev pub get_acceleration : Function
get_acceleration = tuple_getter 1 0 [] (one i16 ∷ one i16 ∷ one i16 ∷ []) 3

abbrev pub get_magnetic_field : Function
get_magnetic_field = tuple_getter 2 0 [] (one i16 ∷ one i16 ∷ one i16 ∷ []) 3

abbrev pub get_angular_velocity : Function
get_angular_velocity = tuple_getter 3 0 [] (one i16 ∷ one i16 ∷ one i16 ∷ []) 3

abbrev pub get_temperature : Function
get_temperature = getter 4 0 [] (one i8 ∷ [])

abbrev pub get_orientation : Function
get_orientation = tuple_getter 5 0 [] (one i16 ∷ one i16 ∷ one i16 ∷ []) 3

abbrev pub get_linear_acceleration : Function
get_linear_acceleration = tuple_getter 6 0 [] (one i16 ∷ one i16 ∷ one i16 ∷ []) 3

abbrev pub get_gravity_vector : Function
get_gravity_vector = tuple_getter 7 0 [] (one i16 ∷ one i16 ∷ one i16 ∷ []) 3

abbrev pub get_quaternion : Function
get_quaternion = tuple_getter 8 0 [] (one i16 ∷ one i16 ∷ one i16 ∷ one i16 ∷ []) 4

abbrev pub get_all_data : Function
get_all_data =
    tuple_getter 9 0 []
      (many 3 i16
        ∷ many 3 i16
        ∷ many 3 i16
        ∷ many 3 i16
        ∷ many 4 i16
        ∷ many 3 i16
        ∷ many 3 i16
        ∷ one i8
        ∷ one u8
        ∷ [])
      9

abbrev pub leds_on : Function
leds_on = setter 10 0 []

abbrev pub leds_off : Function
leds_off = setter 11 0 []

abbrev pub are_leds_on : Function
are_leds_on = getter 12 0 [] (one flag ∷ [])

abbrev pub save_calibration : Function
save_calibration = getter 13 0 [] (one flag ∷ [])

abbrev pub set_acceleration_period : Function
set_acceleration_period = setter 14 1 (one u32 ∷ [])

abbrev pub get_acceleration_period : Function
get_acceleration_period = getter 15 0 [] (one u32 ∷ [])

abbrev pub set_magnetic_field_period : Function
set_magnetic_field_period = setter 16 1 (one u32 ∷ [])

abbrev pub get_magnetic_field_period : Function
get_magnetic_field_period = getter 17 0 [] (one u32 ∷ [])

abbrev pub set_angular_velocity_period : Function
set_angular_velocity_period = setter 18 1 (one u32 ∷ [])

abbrev pub get_angular_velocity_period : Function
get_angular_velocity_period = getter 19 0 [] (one u32 ∷ [])

abbrev pub set_temperature_period : Function
set_temperature_period = setter 20 1 (one u32 ∷ [])

abbrev pub get_temperature_period : Function
get_temperature_period = getter 21 0 [] (one u32 ∷ [])

abbrev pub set_orientation_period : Function
set_orientation_period = setter 22 1 (one u32 ∷ [])

abbrev pub get_orientation_period : Function
get_orientation_period = getter 23 0 [] (one u32 ∷ [])

abbrev pub set_linear_acceleration_period : Function
set_linear_acceleration_period = setter 24 1 (one u32 ∷ [])

abbrev pub get_linear_acceleration_period : Function
get_linear_acceleration_period = getter 25 0 [] (one u32 ∷ [])

abbrev pub set_gravity_vector_period : Function
set_gravity_vector_period = setter 26 1 (one u32 ∷ [])

abbrev pub get_gravity_vector_period : Function
get_gravity_vector_period = getter 27 0 [] (one u32 ∷ [])

abbrev pub set_quaternion_period : Function
set_quaternion_period = setter 28 1 (one u32 ∷ [])

abbrev pub get_quaternion_period : Function
get_quaternion_period = getter 29 0 [] (one u32 ∷ [])

abbrev pub set_all_data_period : Function
set_all_data_period = setter 30 1 (one u32 ∷ [])

abbrev pub get_all_data_period : Function
get_all_data_period = getter 31 0 [] (one u32 ∷ [])

abbrev pub enable_status_led : Function
enable_status_led = setter 238 0 []

abbrev pub disable_status_led : Function
disable_status_led = setter 239 0 []

abbrev pub is_status_led_enabled : Function
is_status_led_enabled = getter 240 0 [] (one flag ∷ [])

abbrev pub get_protocol1_bricklet_name : Function
get_protocol1_bricklet_name =
    tuple_getter 241 1 (one ch ∷ []) (one u8 ∷ many 3 u8 ∷ many 40 str ∷ []) 3

abbrev pub get_chip_temperature : Function
get_chip_temperature = getter 242 0 [] (one i16 ∷ [])

abbrev pub reset : Function
reset = setter 243 0 []

abbrev pub get_identity : Function
get_identity =
    tuple_getter 255 0 [] (many 8 str ∷ many 8 str ∷ one ch ∷ many 3 u8 ∷ many 3 u8 ∷ one u16 ∷ [])
      6

-- The constructor and the methods.
abbrev pub binding : Binding
binding = record {
  api_version = (2, 0, 0);
  flags =
      (1, always_true)
      ∷ (2, always_true)
      ∷ (3, always_true)
      ∷ (4, always_true)
      ∷ (5, always_true)
      ∷ (6, always_true)
      ∷ (7, always_true)
      ∷ (8, always_true)
      ∷ (9, always_true)
      ∷ (10, set_false)
      ∷ (11, set_false)
      ∷ (12, always_true)
      ∷ (13, always_true)
      ∷ (14, set_true)
      ∷ (15, always_true)
      ∷ (16, set_true)
      ∷ (17, always_true)
      ∷ (18, set_true)
      ∷ (19, always_true)
      ∷ (20, set_true)
      ∷ (21, always_true)
      ∷ (22, set_true)
      ∷ (23, always_true)
      ∷ (24, set_true)
      ∷ (25, always_true)
      ∷ (26, set_true)
      ∷ (27, always_true)
      ∷ (28, set_true)
      ∷ (29, always_true)
      ∷ (30, set_true)
      ∷ (31, always_true)
      ∷ (32, always_false)
      ∷ (33, always_false)
      ∷ (34, always_false)
      ∷ (35, always_false)
      ∷ (36, always_false)
      ∷ (37, always_false)
      ∷ (38, always_false)
      ∷ (39, always_false)
      ∷ (40, always_false)
      ∷ (238, set_false)
      ∷ (239, set_false)
      ∷ (240, always_true)
      ∷ (241, always_true)
      ∷ (242, always_true)
      ∷ (243, set_false)
      ∷ (255, always_true)
      ∷ [];
  formats =
      (32, one i16 ∷ one i16 ∷ one i16 ∷ [])
      ∷ (33, one i16 ∷ one i16 ∷ one i16 ∷ [])
      ∷ (34, one i16 ∷ one i16 ∷ one i16 ∷ [])
      ∷ (35, one i8 ∷ [])
      ∷ (36, one i16 ∷ one i16 ∷ one i16 ∷ [])
      ∷ (37, one i16 ∷ one i16 ∷ one i16 ∷ [])
      ∷ (38, one i16 ∷ one i16 ∷ one i16 ∷ [])
      ∷ (39, one i16 ∷ one i16 ∷ one i16 ∷ one i16 ∷ [])
      ∷ (
        40,
        many 3 i16
            ∷ many 3 i16
            ∷ many 3 i16
            ∷ many 3 i16
            ∷ many 4 i16
            ∷ many 3 i16
            ∷ many 3 i16
            ∷ one i8
            ∷ one u8
            ∷ [],
      )
      ∷ [];
  functions =
      get_acceleration ∷ get_magnetic_field ∷ get_angular_velocity ∷ get_temperature
      ∷ get_orientation ∷ get_linear_acceleration ∷ get_gravity_vector ∷ get_quaternion
      ∷ get_all_data ∷ leds_on ∷ leds_off ∷ are_leds_on ∷ save_calibration ∷ set_acceleration_period
      ∷ get_acceleration_period ∷ set_magnetic_field_period ∷ get_magnetic_field_period
      ∷ set_angular_velocity_period ∷ get_angular_velocity_period ∷ set_temperature_period
      ∷ get_temperature_period ∷ set_orientation_period ∷ get_orientation_period
      ∷ set_linear_acceleration_period ∷ get_linear_acceleration_period ∷ set_gravity_vector_period
      ∷ get_gravity_vector_period ∷ set_quaternion_period ∷ get_quaternion_period
      ∷ set_all_data_period ∷ get_all_data_period ∷ enable_status_led ∷ disable_status_led
      ∷ is_status_led_enabled ∷ get_protocol1_bricklet_name ∷ get_chip_temperature ∷ reset
      ∷ get_identity ∷ [];
}
