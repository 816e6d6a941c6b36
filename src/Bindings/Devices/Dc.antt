-- ===== src/Bindings/Devices/Dc.antt =====
-- scripts/tinkerforge/brick_dc.py: class BrickDC.
use lufthansa.Base.{[], ◌∷◌}
use lufthansa.Format.{ch, flag, i16, str, u16, u8, one, many}
use lufthansa.State.{always_false, always_true, set_false, set_true}
use lufthansa.Bindings.Class.{Function, Binding, setter, getter, tuple_getter}

abbrev pub set_velocity : Function
set_velocity = setter 1 1 (one i16 ∷ [])

abbrev pub get_velocity : Function
get_velocity = getter 2 0 [] (one i16 ∷ [])

abbrev pub get_current_velocity : Function
get_current_velocity = getter 3 0 [] (one i16 ∷ [])

abbrev pub set_acceleration : Function
set_acceleration = setter 4 1 (one u16 ∷ [])

abbrev pub get_acceleration : Function
get_acceleration = getter 5 0 [] (one u16 ∷ [])

abbrev pub set_pwm_frequency : Function
set_pwm_frequency = setter 6 1 (one u16 ∷ [])

abbrev pub get_pwm_frequency : Function
get_pwm_frequency = getter 7 0 [] (one u16 ∷ [])

abbrev pub full_brake : Function
full_brake = setter 8 0 []

abbrev pub get_stack_input_voltage : Function
get_stack_input_voltage = getter 9 0 [] (one u16 ∷ [])

abbrev pub get_external_input_voltage : Function
get_external_input_voltage = getter 10 0 [] (one u16 ∷ [])

abbrev pub get_current_consumption : Function
get_current_consumption = getter 11 0 [] (one u16 ∷ [])

abbrev pub enable : Function
enable = setter 12 0 []

abbrev pub disable : Function
disable = setter 13 0 []

abbrev pub is_enabled : Function
is_enabled = getter 14 0 [] (one flag ∷ [])

abbrev pub set_minimum_voltage : Function
set_minimum_voltage = setter 15 1 (one u16 ∷ [])

abbrev pub get_minimum_voltage : Function
get_minimum_voltage = getter 16 0 [] (one u16 ∷ [])

abbrev pub set_drive_mode : Function
set_drive_mode = setter 17 1 (one u8 ∷ [])

abbrev pub get_drive_mode : Function
get_drive_mode = getter 18 0 [] (one u8 ∷ [])

abbrev pub set_current_velocity_period : Function
set_current_velocity_period = setter 19 1 (one u16 ∷ [])

abbrev pub get_current_velocity_period : Function
get_current_velocity_period = getter 20 0 [] (one u16 ∷ [])

abbrev pub enable_status_led : Function
enable_status_led = setter 238 0 []

abbrev pub disable_status_led : Function
disable_status_led = setter 239 0 []

abbrev pub is_status_led_enabled : Function
is_status_led_enabled = getter 240 0 [] (one flag ∷ [])

abbrev pub get_protocol1_bricklet_name : Function
get_protocol1_bricklet_name =
    tuple_getter 241 1 (one ch ∷ []) (one u8 ∷ many 3 u8 ∷ many 40 str ∷ []) 3

abbrev pub get_chip_temperature : Function
get_chip_temperature = getter 242 0 [] (one i16 ∷ [])

abbrev pub reset : Function
reset = setter 243 0 []

abbrev pub get_identity : Function
get_identity =
    tuple_getter 255 0 [] (many 8 str ∷ many 8 str ∷ one ch ∷ many 3 u8 ∷ many 3 u8 ∷ one u16 ∷ [])
      6

-- The constructor and the methods.
abbrev pub binding : Binding
binding = record {
  api_version = (2, 0, 0);
  flags =
      (1, set_false)
      ∷ (2, always_true)
      ∷ (3, always_true)
      ∷ (4, set_false)
      ∷ (5, always_true)
      ∷ (6, set_false)
      ∷ (7, always_true)
      ∷ (8, set_false)
      ∷ (9, always_true)
      ∷ (10, always_true)
      ∷ (11, always_true)
      ∷ (12, set_false)
      ∷ (13, set_false)
      ∷ (14, always_true)
      ∷ (15, set_true)
      ∷ (16, always_true)
      ∷ (17, set_false)
      ∷ (18, always_true)
      ∷ (19, set_true)
      ∷ (20, always_true)
      ∷ (21, always_false)
      ∷ (22, always_false)
      ∷ (23, always_false)
      ∷ (24, always_false)
      ∷ (238, set_false)
      ∷ (239, set_false)
      ∷ (240, always_true)
      ∷ (241, always_true)
      ∷ (242, always_true)
      ∷ (243, set_false)
      ∷ (255, always_true)
      ∷ [];
  formats = (21, one u16 ∷ []) ∷ (22, []) ∷ (23, one i16 ∷ []) ∷ (24, one i16 ∷ []) ∷ [];
  functions =
      set_velocity ∷ get_velocity ∷ get_current_velocity ∷ set_acceleration ∷ get_acceleration
      ∷ set_pwm_frequency ∷ get_pwm_frequency ∷ full_brake ∷ get_stack_input_voltage
      ∷ get_external_input_voltage ∷ get_current_consumption ∷ enable ∷ disable ∷ is_enabled
      ∷ set_minimum_voltage ∷ get_minimum_voltage ∷ set_drive_mode ∷ get_drive_mode
      ∷ set_current_velocity_period ∷ get_current_velocity_period ∷ enable_status_led
      ∷ disable_status_led ∷ is_status_led_enabled ∷ get_protocol1_bricklet_name
      ∷ get_chip_temperature ∷ reset ∷ get_identity ∷ [];
}
