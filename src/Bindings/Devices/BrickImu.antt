-- ===== src/Bindings/Devices/BrickImu.antt =====
-- scripts/tinkerforge/brick_imu.py: class BrickIMU.
use lufthansa.Base.{[], ◌∷◌}
use lufthansa.Format.{ch, f32, flag, i16, str, u16, u32, u8, one, many}
use lufthansa.State.{always_false, always_true, set_false, set_true}
use lufthansa.Bindings.Class.{Function, Binding, setter, getter, tuple_getter}

abbrev pub get_acceleration : Function
get_acceleration = tuple_getter 1 0 [] (one i16 ∷ one i16 ∷ one i16 ∷ []) 3

abbrev pub get_magnetic_field : Function
get_magnetic_field = tuple_getter 2 0 [] (one i16 ∷ one i16 ∷ one i16 ∷ []) 3

abbrev pub get_angular_velocity : Function
get_angular_velocity = tuple_getter 3 0 [] (one i16 ∷ one i16 ∷ one i16 ∷ []) 3

abbrev pub get_all_data : Function
get_all_data =
    tuple_getter 4 0 []
      (one i16
        ∷ one i16
        ∷ one i16
        ∷ one i16
        ∷ one i16
        ∷ one i16
        ∷ one i16
        ∷ one i16
        ∷ one i16
        ∷ one i16
        ∷ [])
      10

abbrev pub get_orientation : Function
get_orientation = tuple_getter 5 0 [] (one i16 ∷ one i16 ∷ one i16 ∷ []) 3

abbrev pub get_quaternion : Function
get_quaternion = tuple_getter 6 0 [] (one f32 ∷ one f32 ∷ one f32 ∷ one f32 ∷ []) 4

abbrev pub get_imu_temperature : Function
get_imu_temperature = getter 7 0 [] (one i16 ∷ [])

abbrev pub leds_on : Function
leds_on = setter 8 0 []

abbrev pub leds_off : Function
leds_off = setter 9 0 []

abbrev pub are_leds_on : Function
are_leds_on = getter 10 0 [] (one flag ∷ [])

abbrev pub set_acceleration_range : Function
set_acceleration_range = setter 11 1 (one u8 ∷ [])

abbrev pub get_acceleration_range : Function
get_acceleration_range = getter 12 0 [] (one u8 ∷ [])

abbrev pub set_magnetometer_range : Function
set_magnetometer_range = setter 13 1 (one u8 ∷ [])

abbrev pub get_magnetometer_range : Function
get_magnetometer_range = getter 14 0 [] (one u8 ∷ [])

abbrev pub set_convergence_speed : Function
set_convergence_speed = setter 15 1 (one u16 ∷ [])

abbrev pub get_convergence_speed : Function
get_convergence_speed = getter 16 0 [] (one u16 ∷ [])

abbrev pub set_calibration : Function
set_calibration = setter 17 2 (one u8 ∷ many 10 i16 ∷ [])

abbrev pub get_calibration : Function
get_calibration = getter 18 1 (one u8 ∷ []) (many 10 i16 ∷ [])

abbrev pub set_acceleration_period : Function
set_acceleration_period = setter 19 1 (one u32 ∷ [])

abbrev pub get_acceleration_period : Function
get_acceleration_period = getter 20 0 [] (one u32 ∷ [])

abbrev pub set_magnetic_field_period : Function
set_magnetic_field_period = setter 21 1 (one u32 ∷ [])

abbrev pub get_magnetic_field_period : Function
get_magnetic_field_period = getter 22 0 [] (one u32 ∷ [])

abbrev pub set_angular_velocity_period : Function
set_angular_velocity_period = setter 23 1 (one u32 ∷ [])

abbrev pub get_angular_velocity_period : Function
get_angular_velocity_period = getter 24 0 [] (one u32 ∷ [])

abbrev pub set_all_data_period : Function
set_all_data_period = setter 25 1 (one u32 ∷ [])

abbrev pub get_all_data_period : Function
get_all_data_period = getter 26 0 [] (one u32 ∷ [])

abbrev pub set_orientation_period : Function
set_orientation_period = setter 27 1 (one u32 ∷ [])

abbrev pub get_orientation_period : Function
get_orientation_period = getter 28 0 [] (one u32 ∷ [])

abbrev pub set_quaternion_period : Function
set_quaternion_period = setter 29 1 (one u32 ∷ [])

abbrev pub get_quaternion_period : Function
get_quaternion_period = getter 30 0 [] (one u32 ∷ [])

abbrev pub orientation_calculation_on : Function
orientation_calculation_on = setter 37 0 []

abbrev pub orientation_calculation_off : Function
orientation_calculation_off = setter 38 0 []

abbrev pub is_orientation_calculation_on : Function
is_orientation_calculation_on = getter 39 0 [] (one flag ∷ [])

abbrev pub enable_status_led : Function
enable_status_led = setter 238 0 []

abbrev pub disable_status_led : Function
disable_status_led = setter 239 0 []

abbrev pub is_status_led_enabled : Function
is_status_led_enabled = getter 240 0 [] (one flag ∷ [])

abbrev pub get_protocol1_bricklet_name : Function
get_protocol1_bricklet_name =
    tuple_getter 241 1 (one ch ∷ []) (one u8 ∷ many 3 u8 ∷ many 40 str ∷ []) 3

abbrev pub get_chip_temperature : Function
get_chip_temperature = getter 242 0 [] (one i16 ∷ [])

abbrev pub reset : Function
reset = setter 243 0 []

abbrev pub get_identity : Function
get_identity =
    tuple_getter 255 0 [] (many 8 str ∷ many 8 str ∷ one ch ∷ many 3 u8 ∷ many 3 u8 ∷ one u16 ∷ [])
      6

-- The constructor and the methods.
abbrev pub binding : Binding
binding = record {
  api_version = (2, 0, 1);
  flags =
      (1, always_true)
      ∷ (2, always_true)
      ∷ (3, always_true)
      ∷ (4, always_true)
      ∷ (5, always_true)
      ∷ (6, always_true)
      ∷ (7, always_true)
      ∷ (8, set_false)
      ∷ (9, set_false)
      ∷ (10, always_true)
      ∷ (11, set_false)
      ∷ (12, always_true)
      ∷ (13, set_false)
      ∷ (14, always_true)
      ∷ (15, set_false)
      ∷ (16, always_true)
      ∷ (17, set_false)
      ∷ (18, always_true)
      ∷ (19, set_true)
      ∷ (20, always_true)
      ∷ (21, set_true)
      ∷ (22, always_true)
      ∷ (23, set_true)
      ∷ (24, always_true)
      ∷ (25, set_true)
      ∷ (26, always_true)
      ∷ (27, set_true)
      ∷ (28, always_true)
      ∷ (29, set_true)
      ∷ (30, always_true)
      ∷ (31, always_false)
      ∷ (32, always_false)
      ∷ (33, always_false)
      ∷ (34, always_false)
      ∷ (35, always_false)
      ∷ (36, always_false)
      ∷ (37, set_false)
      ∷ (38, set_false)
      ∷ (39, always_true)
      ∷ (238, set_false)
      ∷ (239, set_false)
      ∷ (240, always_true)
      ∷ (241, always_true)
      ∷ (242, always_true)
      ∷ (243, set_false)
      ∷ (255, always_true)
      ∷ [];
  formats =
      (31, one i16 ∷ one i16 ∷ one i16 ∷ [])
      ∷ (32, one i16 ∷ one i16 ∷ one i16 ∷ [])
      ∷ (33, one i16 ∷ one i16 ∷ one i16 ∷ [])
      ∷ (
        34,
        one i16
            ∷ one i16
            ∷ one i16
            ∷ one i16
            ∷ one i16
            ∷ one i16
            ∷ one i16
            ∷ one i16
            ∷ one i16
            ∷ one i16
            ∷ [],
      )
      ∷ (35, one i16 ∷ one i16 ∷ one i16 ∷ [])
      ∷ (36, one f32 ∷ one f32 ∷ one f32 ∷ one f32 ∷ [])
      ∷ [];
  functions =
      get_acceleration ∷ get_magnetic_field ∷ get_angular_velocity ∷ get_all_data ∷ get_orientation
      ∷ get_quaternion ∷ get_imu_temperature ∷ leds_on ∷ leds_off ∷ are_leds_on
      ∷ set_acceleration_range ∷ get_acceleration_range ∷ set_magnetometer_range
      ∷ get_magnetometer_range ∷ set_convergence_speed ∷ get_convergence_speed ∷ set_calibration
      ∷ get_calibration ∷ set_acceleration_period ∷ get_acceleration_period
      ∷ set_magnetic_field_period ∷ get_magnetic_field_period ∷ set_angular_velocity_period
      ∷ get_angular_velocity_period ∷ set_all_data_period ∷ get_all_data_period
      ∷ set_orientation_period ∷ get_orientation_period ∷ set_quaternion_period
      ∷ get_quaternion_period ∷ orientation_calculation_on ∷ orientation_calculation_off
      ∷ is_orientation_calculation_on ∷ enable_status_led ∷ disable_status_led
      ∷ is_status_led_enabled ∷ get_protocol1_bricklet_name ∷ get_chip_temperature ∷ reset
      ∷ get_identity ∷ [];
}
