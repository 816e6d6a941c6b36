-- ===== src/Bindings/Devices/BrickServo.antt =====
-- scripts/tinkerforge/brick_servo.py: class BrickServo.
use lufthansa.Base.{[], ◌∷◌}
use lufthansa.Format.{ch, flag, i16, str, u16, u8, one, many}
use lufthansa.State.{always_false, always_true, set_false, set_true}
use lufthansa.Bindings.Class.{Function, Binding, setter, getter, tuple_getter}

abbrev pub enable : Function
enable = setter 1 1 (one u8 ∷ [])

abbrev pub disable : Function
disable = setter 2 1 (one u8 ∷ [])

abbrev pub is_enabled : Function
is_enabled = getter 3 1 (one u8 ∷ []) (one flag ∷ [])

abbrev pub set_position : Function
set_position = setter 4 2 (one u8 ∷ one i16 ∷ [])

abbrev pub get_position : Function
get_position = getter 5 1 (one u8 ∷ []) (one i16 ∷ [])

abbrev pub get_current_position : Function
get_current_position = getter 6 1 (one u8 ∷ []) (one i16 ∷ [])

abbrev pub set_velocity : Function
set_velocity = setter 7 2 (one u8 ∷ one u16 ∷ [])

abbrev pub get_velocity : Function
get_velocity = getter 8 1 (one u8 ∷ []) (one u16 ∷ [])

abbrev pub get_current_velocity : Function
get_current_velocity = getter 9 1 (one u8 ∷ []) (one u16 ∷ [])

abbrev pub set_acceleration : Function
set_acceleration = setter 10 2 (one u8 ∷ one u16 ∷ [])

abbrev pub get_acceleration : Function
get_acceleration = getter 11 1 (one u8 ∷ []) (one u16 ∷ [])

abbrev pub set_output_voltage : Function
set_output_voltage = setter 12 1 (one u16 ∷ [])

abbrev pub get_output_voltage : Function
get_output_voltage = getter 13 0 [] (one u16 ∷ [])

abbrev pub set_pulse_width : Function
set_pulse_width = setter 14 3 (one u8 ∷ one u16 ∷ one u16 ∷ [])

abbrev pub get_pulse_width : Function
get_pulse_width = tuple_getter 15 1 (one u8 ∷ []) (one u16 ∷ one u16 ∷ []) 2

abbrev pub set_degree : Function
set_degree = setter 16 3 (one u8 ∷ one i16 ∷ one i16 ∷ [])

abbrev pub get_degree : Function
get_degree = tuple_getter 17 1 (one u8 ∷ []) (one i16 ∷ one i16 ∷ []) 2

abbrev pub set_period : Function
set_period = setter 18 2 (one u8 ∷ one u16 ∷ [])

abbrev pub get_period : Function
get_period = getter 19 1 (one u8 ∷ []) (one u16 ∷ [])

abbrev pub get_servo_current : Function
get_servo_current = getter 20 1 (one u8 ∷ []) (one u16 ∷ [])

abbrev pub get_overall_current : Function
get_overall_current = getter 21 0 [] (one u16 ∷ [])

abbrev pub get_stack_input_voltage : Function
get_stack_input_voltage = getter 22 0 [] (one u16 ∷ [])

abbrev pub get_external_input_voltage : Function
get_external_input_voltage = getter 23 0 [] (one u16 ∷ [])

abbrev pub set_minimum_voltage : Function
set_minimum_voltage = setter 24 1 (one u16 ∷ [])

abbrev pub get_minimum_voltage : Function
get_minimum_voltage = getter 25 0 [] (one u16 ∷ [])

abbrev pub enable_position_reached_callback : Function
enable_position_reached_callback = setter 29 0 []

abbrev pub disable_position_reached_callback : Function
disable_position_reached_callback = setter 30 0 []

abbrev pub is_position_reached_callback_enabled : Function
is_position_reached_callback_enabled = getter 31 0 [] (one u8 ∷ [])

abbrev pub enable_velocity_reached_callback : Function
enable_velocity_reached_callback = setter 32 0 []

abbrev pub disable_velocity_reached_callback : Function
disable_velocity_reached_callback = setter 33 0 []

abbrev pub is_velocity_reached_callback_enabled : Function
is_velocity_reached_callback_enabled = getter 34 0 [] (one u8 ∷ [])

abbrev pub enable_status_led : Function
enable_status_led = setter 238 0 []

abbrev pub disable_status_led : Function
disable_status_led = setter 239 0 []

abbrev pub is_status_led_enabled : Function
is_status_led_enabled = getter 240 0 [] (one flag ∷ [])

abbrev pub get_protocol1_bricklet_name : Function
get_protocol1_bricklet_name =
    tuple_getter 241 1 (one ch ∷ []) (one u8 ∷ many 3 u8 ∷ many 40 str ∷ []) 3

abbrev pub get_chip_temperature : Function
get_chip_temperature = getter 242 0 [] (one i16 ∷ [])

abbrev pub reset : Function
reset = setter 243 0 []

abbrev pub get_identity : Function
get_identity =
    tuple_getter 255 0 [] (many 8 str ∷ many 8 str ∷ one ch ∷ many 3 u8 ∷ many 3 u8 ∷ one u16 ∷ [])
      6

-- The constructor and the methods.
abbrev pub binding : Binding
binding = record {
  api_version = (2, 0, 0);
  flags =
      (1, set_false)
      ∷ (2, set_false)
      ∷ (3, always_true)
      ∷ (4, set_false)
      ∷ (5, always_true)
      ∷ (6, always_true)
      ∷ (7, set_false)
      ∷ (8, always_true)
      ∷ (9, always_true)
      ∷ (10, set_false)
      ∷ (11, always_true)
      ∷ (12, set_false)
      ∷ (13, always_true)
      ∷ (14, set_false)
      ∷ (15, always_true)
      ∷ (16, set_false)
      ∷ (17, always_true)
      ∷ (18, set_false)
      ∷ (19, always_true)
      ∷ (20, always_true)
      ∷ (21, always_true)
      ∷ (22, always_true)
      ∷ (23, always_true)
      ∷ (24, set_true)
      ∷ (25, always_true)
      ∷ (26, always_false)
      ∷ (27, always_false)
      ∷ (28, always_false)
      ∷ (29, set_true)
      ∷ (30, set_true)
      ∷ (31, always_true)
      ∷ (32, set_true)
      ∷ (33, set_true)
      ∷ (34, always_true)
      ∷ (238, set_false)
      ∷ (239, set_false)
      ∷ (240, always_true)
      ∷ (241, always_true)
      ∷ (242, always_true)
      ∷ (243, set_false)
      ∷ (255, always_true)
      ∷ [];
  formats = (26, one u16 ∷ []) ∷ (27, one u8 ∷ one i16 ∷ []) ∷ (28, one u8 ∷ one i16 ∷ []) ∷ [];
  functions =
      enable ∷ disable ∷ is_enabled ∷ set_position ∷ get_position ∷ get_current_position
      ∷ set_velocity ∷ get_velocity ∷ get_current_velocity ∷ set_acceleration ∷ get_acceleration
      ∷ set_output_voltage ∷ get_output_voltage ∷ set_pulse_width ∷ get_pulse_width ∷ set_degree
      ∷ get_degree ∷ set_period ∷ get_period ∷ get_servo_current ∷ get_overall_current
      ∷ get_stack_input_voltage ∷ get_external_input_voltage ∷ set_minimum_voltage
      ∷ get_minimum_voltage ∷ enable_position_reached_callback ∷ disable_position_reached_callback
      ∷ is_position_reached_callback_enabled ∷ enable_velocity_reached_callback
      ∷ disable_velocity_reached_callback ∷ is_velocity_reached_callback_enabled ∷ enable_status_led
      ∷ disable_status_led ∷ is_status_led_enabled ∷ get_protocol1_bricklet_name
      ∷ get_chip_temperature ∷ reset ∷ get_identity ∷ [];
}
