-- ===== src/Bindings/Devices/BrickStepper.antt =====
-- scripts/tinkerforge/brick_stepper.py: class BrickStepper.
use lufthansa.Base.{[], ◌∷◌}
use lufthansa.Format.{ch, flag, i16, i32, str, u16, u32, u8, one, many}
use lufthansa.State.{always_false, always_true, set_false, set_true}
use lufthansa.Bindings.Class.{Function, Binding, setter, getter, tuple_getter}

abbrev pub set_max_velocity : Function
set_max_velocity = setter 1 1 (one u16 ∷ [])

abbrev pub get_max_velocity : Function
get_max_velocity = getter 2 0 [] (one u16 ∷ [])

abbrev pub get_current_velocity : Function
get_current_velocity = getter 3 0 [] (one u16 ∷ [])

abbrev pub set_speed_ramping : Function
set_speed_ramping = setter 4 2 (one u16 ∷ one u16 ∷ [])

abbrev pub get_speed_ramping : Function
get_speed_ramping = tuple_getter 5 0 [] (one u16 ∷ one u16 ∷ []) 2

abbrev pub full_brake : Function
full_brake = setter 6 0 []

abbrev pub set_current_position : Function
set_current_position = setter 7 1 (one i32 ∷ [])

abbrev pub get_current_position : Function
get_current_position = getter 8 0 [] (one i32 ∷ [])

abbrev pub set_target_position : Function
set_target_position = setter 9 1 (one i32 ∷ [])

abbrev pub get_target_position : Function
get_target_position = getter 10 0 [] (one i32 ∷ [])

abbrev pub set_steps : Function
set_steps = setter 11 1 (one i32 ∷ [])

abbrev pub get_steps : Function
get_steps = getter 12 0 [] (one i32 ∷ [])

abbrev pub get_remaining_steps : Function
get_remaining_steps = getter 13 0 [] (one i32 ∷ [])

abbrev pub set_step_mode : Function
set_step_mode = setter 14 1 (one u8 ∷ [])

abbrev pub get_step_mode : Function
get_step_mode = getter 15 0 [] (one u8 ∷ [])

abbrev pub drive_forward : Function
drive_forward = setter 16 0 []

abbrev pub drive_backward : Function
drive_backward = setter 17 0 []

abbrev pub stop : Function
stop = setter 18 0 []

abbrev pub get_stack_input_voltage : Function
get_stack_input_voltage = getter 19 0 [] (one u16 ∷ [])

abbrev pub get_external_input_voltage : Function
get_external_input_voltage = getter 20 0 [] (one u16 ∷ [])

abbrev pub get_current_consumption : Function
get_current_consumption = getter 21 0 [] (one u16 ∷ [])

abbrev pub set_motor_current : Function
set_motor_current = setter 22 1 (one u16 ∷ [])

abbrev pub get_motor_current : Function
get_motor_current = getter 23 0 [] (one u16 ∷ [])

abbrev pub enable : Function
enable = setter 24 0 []

abbrev pub disable : Function
disable = setter 25 0 []

abbrev pub is_enabled : Function
is_enabled = getter 26 0 [] (one flag ∷ [])

abbrev pub set_decay : Function
set_decay = setter 27 1 (one u16 ∷ [])

abbrev pub get_decay : Function
get_decay = getter 28 0 [] (one u16 ∷ [])

abbrev pub set_minimum_voltage : Function
set_minimum_voltage = setter 29 1 (one u16 ∷ [])

abbrev pub get_minimum_voltage : Function
get_minimum_voltage = getter 30 0 [] (one u16 ∷ [])

abbrev pub set_sync_rect : Function
set_sync_rect = setter 33 1 (one flag ∷ [])

abbrev pub is_sync_rect : Function
is_sync_rect = getter 34 0 [] (one flag ∷ [])

abbrev pub set_time_base : Function
set_time_base = setter 35 1 (one u32 ∷ [])

abbrev pub get_time_base : Function
get_time_base = getter 36 0 [] (one u32 ∷ [])

abbrev pub get_all_data : Function
get_all_data =
    tuple_getter 37 0 [] (one u16 ∷ one i32 ∷ one i32 ∷ one u16 ∷ one u16 ∷ one u16 ∷ []) 6

abbrev pub set_all_data_period : Function
set_all_data_period = setter 38 1 (one u32 ∷ [])

abbrev pub get_all_data_period : Function
get_all_data_period = getter 39 0 [] (one u32 ∷ [])

abbrev pub enable_status_led : Function
enable_status_led = setter 238 0 []

abbrev pub disable_status_led : Function
disable_status_led = setter 239 0 []

abbrev pub is_status_led_enabled : Function
is_status_led_enabled = getter 240 0 [] (one flag ∷ [])

abbrev pub get_protocol1_bricklet_name : Function
get_protocol1_bricklet_name =
    tuple_getter 241 1 (one ch ∷ []) (one u8 ∷ many 3 u8 ∷ many 40 str ∷ []) 3

abbrev pub get_chip_temperature : Function
get_chip_temperature = getter 242 0 [] (one i16 ∷ [])

abbrev pub reset : Function
reset = setter 243 0 []

abbrev pub get_identity : Function
get_identity =
    tuple_getter 255 0 [] (many 8 str ∷ many 8 str ∷ one ch ∷ many 3 u8 ∷ many 3 u8 ∷ one u16 ∷ [])
      6

-- The constructor and the methods.
abbrev pub binding : Binding
binding = record {
  api_version = (2, 0, 0);
  flags =
      (1, set_false)
      ∷ (2, always_true)
      ∷ (3, always_true)
      ∷ (4, set_false)
      ∷ (5, always_true)
      ∷ (6, set_false)
      ∷ (7, set_false)
      ∷ (8, always_true)
      ∷ (9, set_false)
      ∷ (10, always_true)
      ∷ (11, set_false)
      ∷ (12, always_true)
      ∷ (13, always_true)
      ∷ (14, set_false)
      ∷ (15, always_true)
      ∷ (16, set_false)
      ∷ (17, set_false)
      ∷ (18, set_false)
      ∷ (19, always_true)
      ∷ (20, always_true)
      ∷ (21, always_true)
      ∷ (22, set_false)
      ∷ (23, always_true)
      ∷ (24, set_false)
      ∷ (25, set_false)
      ∷ (26, always_true)
      ∷ (27, set_false)
      ∷ (28, always_true)
      ∷ (29, set_true)
      ∷ (30, always_true)
      ∷ (31, always_false)
      ∷ (32, always_false)
      ∷ (33, set_false)
      ∷ (34, always_true)
      ∷ (35, set_false)
      ∷ (36, always_true)
      ∷ (37, always_true)
      ∷ (38, set_true)
      ∷ (39, always_true)
      ∷ (40, always_false)
      ∷ (41, always_false)
      ∷ (238, set_false)
      ∷ (239, set_false)
      ∷ (240, always_true)
      ∷ (241, always_true)
      ∷ (242, always_true)
      ∷ (243, set_false)
      ∷ (255, always_true)
      ∷ [];
  formats =
      (31, one u16 ∷ [])
      ∷ (32, one i32 ∷ [])
      ∷ (40, one u16 ∷ one i32 ∷ one i32 ∷ one u16 ∷ one u16 ∷ one u16 ∷ [])
      ∷ (41, one u8 ∷ one u8 ∷ [])
      ∷ [];
  functions =
      set_max_velocity ∷ get_max_velocity ∷ get_current_velocity ∷ set_speed_ramping
      ∷ get_speed_ramping ∷ full_brake ∷ set_current_position ∷ get_current_position
      ∷ set_target_position ∷ get_target_position ∷ set_steps ∷ get_steps ∷ get_remaining_steps
      ∷ set_step_mode ∷ get_step_mode ∷ drive_forward ∷ drive_backward ∷ stop
      ∷ get_stack_input_voltage ∷ get_external_input_voltage ∷ get_current_consumption
      ∷ set_motor_current ∷ get_motor_current ∷ enable ∷ disable ∷ is_enabled ∷ set_decay
      ∷ get_decay ∷ set_minimum_voltage ∷ get_minimum_voltage ∷ set_sync_rect ∷ is_sync_rect
      ∷ set_time_base ∷ get_time_base ∷ get_all_data ∷ set_all_data_period ∷ get_all_data_period
      ∷ enable_status_led ∷ disable_status_led ∷ is_status_led_enabled ∷ get_protocol1_bricklet_name
      ∷ get_chip_temperature ∷ reset ∷ get_identity ∷ [];
}
