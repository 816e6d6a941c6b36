-- ===== src/Bindings/Devices/BrickMaster.antt =====
-- scripts/tinkerforge/brick_master.py: class BrickMaster.
use lufthansa.Base.{[], ◌∷◌}
use lufthansa.Format.{ch, flag, i16, str, u16, u32, u8, one, many}
use lufthansa.State.{always_false, always_true, set_false, set_true}
use lufthansa.Bindings.Class.{Function, Binding, setter, getter, tuple_getter}

abbrev pub get_stack_voltage : Function
get_stack_voltage = getter 1 0 [] (one u16 ∷ [])

abbrev pub get_stack_current : Function
get_stack_current = getter 2 0 [] (one u16 ∷ [])

abbrev pub set_extension_type : Function
set_extension_type = setter 3 2 (one u8 ∷ one u32 ∷ [])

abbrev pub get_extension_type : Function
get_extension_type = getter 4 1 (one u8 ∷ []) (one u32 ∷ [])

abbrev pub is_chibi_present : Function
is_chibi_present = getter 5 0 [] (one flag ∷ [])

abbrev pub set_chibi_address : Function
set_chibi_address = setter 6 1 (one u8 ∷ [])

abbrev pub get_chibi_address : Function
get_chibi_address = getter 7 0 [] (one u8 ∷ [])

abbrev pub set_chibi_master_address : Function
set_chibi_master_address = setter 8 1 (one u8 ∷ [])

abbrev pub get_chibi_master_address : Function
get_chibi_master_address = getter 9 0 [] (one u8 ∷ [])

abbrev pub set_chibi_slave_address : Function
set_chibi_slave_address = setter 10 2 (one u8 ∷ one u8 ∷ [])

abbrev pub get_chibi_slave_address : Function
get_chibi_slave_address = getter 11 1 (one u8 ∷ []) (one u8 ∷ [])

abbrev pub get_chibi_signal_strength : Function
get_chibi_signal_strength = getter 12 0 [] (one u8 ∷ [])

abbrev pub get_chibi_error_log : Function
get_chibi_error_log = tuple_getter 13 0 [] (one u16 ∷ one u16 ∷ one u16 ∷ one u16 ∷ []) 4

abbrev pub set_chibi_frequency : Function
set_chibi_frequency = setter 14 1 (one u8 ∷ [])

abbrev pub get_chibi_frequency : Function
get_chibi_frequency = getter 15 0 [] (one u8 ∷ [])

abbrev pub set_chibi_channel : Function
set_chibi_channel = setter 16 1 (one u8 ∷ [])

abbrev pub get_chibi_channel : Function
get_chibi_channel = getter 17 0 [] (one u8 ∷ [])

abbrev pub is_rs485_present : Function
is_rs485_present = getter 18 0 [] (one flag ∷ [])

abbrev pub set_rs485_address : Function
set_rs485_address = setter 19 1 (one u8 ∷ [])

abbrev pub get_rs485_address : Function
get_rs485_address = getter 20 0 [] (one u8 ∷ [])

abbrev pub set_rs485_slave_address : Function
set_rs485_slave_address = setter 21 2 (one u8 ∷ one u8 ∷ [])

abbrev pub get_rs485_slave_address : Function
get_rs485_slave_address = getter 22 1 (one u8 ∷ []) (one u8 ∷ [])

abbrev pub get_rs485_error_log : Function
get_rs485_error_log = getter 23 0 [] (one u16 ∷ [])

abbrev pub set_rs485_configuration : Function
set_rs485_configuration = setter 24 3 (one u32 ∷ one ch ∷ one u8 ∷ [])

abbrev pub get_rs485_configuration : Function
get_rs485_configuration = tuple_getter 25 0 [] (one u32 ∷ one ch ∷ one u8 ∷ []) 3

abbrev pub is_wifi_present : Function
is_wifi_present = getter 26 0 [] (one flag ∷ [])

abbrev pub set_wifi_configuration : Function
set_wifi_configuration =
    setter 27 6 (many 32 str ∷ one u8 ∷ many 4 u8 ∷ many 4 u8 ∷ many 4 u8 ∷ one u16 ∷ [])

abbrev pub get_wifi_configuration : Function
get_wifi_configuration =
    tuple_getter 28 0 [] (many 32 str ∷ one u8 ∷ many 4 u8 ∷ many 4 u8 ∷ many 4 u8 ∷ one u16 ∷ []) 6

abbrev pub set_wifi_encryption : Function
set_wifi_encryption =
    setter 29 7 (one u8 ∷ many 50 str ∷ one u8 ∷ one u8 ∷ one u16 ∷ one u16 ∷ one u16 ∷ [])

abbrev pub get_wifi_encryption : Function
get_wifi_encryption =
    tuple_getter 30 0 [] (one u8 ∷ many 50 str ∷ one u8 ∷ one u8 ∷ one u16 ∷ one u16 ∷ one u16 ∷ [])
      7

abbrev pub get_wifi_status : Function
get_wifi_status =
    tuple_getter 31 0 []
      (many 6 u8
        ∷ many 6 u8
        ∷ one u8
        ∷ one i16
        ∷ many 4 u8
        ∷ many 4 u8
        ∷ many 4 u8
        ∷ one u32
        ∷ one u32
        ∷ one u8
        ∷ [])
      10

abbrev pub refresh_wifi_status : Function
refresh_wifi_status = setter 32 0 []

abbrev pub set_wifi_certificate : Function
set_wifi_certificate = setter 33 3 (one u16 ∷ many 32 u8 ∷ one u8 ∷ [])

abbrev pub get_wifi_certificate : Function
get_wifi_certificate = tuple_getter 34 1 (one u16 ∷ []) (many 32 u8 ∷ one u8 ∷ []) 2

abbrev pub set_wifi_power_mode : Function
set_wifi_power_mode = setter 35 1 (one u8 ∷ [])

abbrev pub get_wifi_power_mode : Function
get_wifi_power_mode = getter 36 0 [] (one u8 ∷ [])

abbrev pub get_wifi_buffer_info : Function
get_wifi_buffer_info = tuple_getter 37 0 [] (one u32 ∷ one u16 ∷ one u16 ∷ []) 3

abbrev pub set_wifi_regulatory_domain : Function
set_wifi_regulatory_domain = setter 38 1 (one u8 ∷ [])

abbrev pub get_wifi_regulatory_domain : Function
get_wifi_regulatory_domain = getter 39 0 [] (one u8 ∷ [])

abbrev pub get_usb_voltage : Function
get_usb_voltage = getter 40 0 [] (one u16 ∷ [])

abbrev pub set_long_wifi_key : Function
set_long_wifi_key = setter 41 1 (many 64 str ∷ [])

abbrev pub get_long_wifi_key : Function
get_long_wifi_key = getter 42 0 [] (many 64 str ∷ [])

abbrev pub set_wifi_hostname : Function
set_wifi_hostname = setter 43 1 (many 16 str ∷ [])

abbrev pub get_wifi_hostname : Function
get_wifi_hostname = getter 44 0 [] (many 16 str ∷ [])

abbrev pub set_stack_current_callback_period : Function
set_stack_current_callback_period = setter 45 1 (one u32 ∷ [])

abbrev pub get_stack_current_callback_period : Function
get_stack_current_callback_period = getter 46 0 [] (one u32 ∷ [])

abbrev pub set_stack_voltage_callback_period : Function
set_stack_voltage_callback_period = setter 47 1 (one u32 ∷ [])

abbrev pub get_stack_voltage_callback_period : Function
get_stack_voltage_callback_period = getter 48 0 [] (one u32 ∷ [])

abbrev pub set_usb_voltage_callback_period : Function
set_usb_voltage_callback_period = setter 49 1 (one u32 ∷ [])

abbrev pub get_usb_voltage_callback_period : Function
get_usb_voltage_callback_period = getter 50 0 [] (one u32 ∷ [])

abbrev pub set_stack_current_callback_threshold : Function
set_stack_current_callback_threshold = setter 51 3 (one ch ∷ one u16 ∷ one u16 ∷ [])

abbrev pub get_stack_current_callback_threshold : Function
get_stack_current_callback_threshold = tuple_getter 52 0 [] (one ch ∷ one u16 ∷ one u16 ∷ []) 3

abbrev pub set_stack_voltage_callback_threshold : Function
set_stack_voltage_callback_threshold = setter 53 3 (one ch ∷ one u16 ∷ one u16 ∷ [])

abbrev pub get_stack_voltage_callback_threshold : Function
get_stack_voltage_callback_threshold = tuple_getter 54 0 [] (one ch ∷ one u16 ∷ one u16 ∷ []) 3

abbrev pub set_usb_voltage_callback_threshold : Function
set_usb_voltage_callback_threshold = setter 55 3 (one ch ∷ one u16 ∷ one u16 ∷ [])

abbrev pub get_usb_voltage_callback_threshold : Function
get_usb_voltage_callback_threshold = tuple_getter 56 0 [] (one ch ∷ one u16 ∷ one u16 ∷ []) 3

abbrev pub set_debounce_period : Function
set_debounce_period = setter 57 1 (one u32 ∷ [])

abbrev pub get_debounce_period : Function
get_debounce_period = getter 58 0 [] (one u32 ∷ [])

abbrev pub is_ethernet_present : Function
is_ethernet_present = getter 65 0 [] (one flag ∷ [])

abbrev pub set_ethernet_configuration : Function
set_ethernet_configuration = setter 66 5 (one u8 ∷ many 4 u8 ∷ many 4 u8 ∷ many 4 u8 ∷ one u16 ∷ [])

abbrev pub get_ethernet_configuration : Function
get_ethernet_configuration =
    tuple_getter 67 0 [] (one u8 ∷ many 4 u8 ∷ many 4 u8 ∷ many 4 u8 ∷ one u16 ∷ []) 5

abbrev pub get_ethernet_status : Function
get_ethernet_status =
    tuple_getter 68 0 []
      (many 6 u8 ∷ many 4 u8 ∷ many 4 u8 ∷ many 4 u8 ∷ one u32 ∷ one u32 ∷ many 32 str ∷ []) 7

abbrev pub set_ethernet_hostname : Function
set_ethernet_hostname = setter 69 1 (many 32 str ∷ [])

abbrev pub set_ethernet_mac_address : Function
set_ethernet_mac_address = setter 70 1 (many 6 u8 ∷ [])

abbrev pub set_ethernet_websocket_configuration : Function
set_ethernet_websocket_configuration = setter 71 2 (one u8 ∷ one u16 ∷ [])

abbrev pub get_ethernet_websocket_configuration : Function
get_ethernet_websocket_configuration = tuple_getter 72 0 [] (one u8 ∷ one u16 ∷ []) 2

abbrev pub set_ethernet_authentication_secret : Function
set_ethernet_authentication_secret = setter 73 1 (many 64 str ∷ [])

abbrev pub get_ethernet_authentication_secret : Function
get_ethernet_authentication_secret = getter 74 0 [] (many 64 str ∷ [])

abbrev pub set_wifi_authentication_secret : Function
set_wifi_authentication_secret = setter 75 1 (many 64 str ∷ [])

abbrev pub get_wifi_authentication_secret : Function
get_wifi_authentication_secret = getter 76 0 [] (many 64 str ∷ [])

abbrev pub enable_status_led : Function
enable_status_led = setter 238 0 []

abbrev pub disable_status_led : Function
disable_status_led = setter 239 0 []

abbrev pub is_status_led_enabled : Function
is_status_led_enabled = getter 240 0 [] (one flag ∷ [])

abbrev pub get_protocol1_bricklet_name : Function
get_protocol1_bricklet_name =
    tuple_getter 241 1 (one ch ∷ []) (one u8 ∷ many 3 u8 ∷ many 40 str ∷ []) 3

abbrev pub get_chip_temperature : Function
get_chip_temperature = getter 242 0 [] (one i16 ∷ [])

abbrev pub reset : Function
reset = setter 243 0 []

abbrev pub get_identity : Function
get_identity =
    tuple_getter 255 0 [] (many 8 str ∷ many 8 str ∷ one ch ∷ many 3 u8 ∷ many 3 u8 ∷ one u16 ∷ [])
      6

-- The constructor and the methods.
abbrev pub binding : Binding
binding = record {
  api_version = (2, 0, 3);
  flags =
      (1, always_true)
      ∷ (2, always_true)
      ∷ (3, set_false)
      ∷ (4, always_true)
      ∷ (5, always_true)
      ∷ (6, set_false)
      ∷ (7, always_true)
      ∷ (8, set_false)
      ∷ (9, always_true)
      ∷ (10, set_false)
      ∷ (11, always_true)
      ∷ (12, always_true)
      ∷ (13, always_true)
      ∷ (14, set_false)
      ∷ (15, always_true)
      ∷ (16, set_false)
      ∷ (17, always_true)
      ∷ (18, always_true)
      ∷ (19, set_false)
      ∷ (20, always_true)
      ∷ (21, set_false)
      ∷ (22, always_true)
      ∷ (23, always_true)
      ∷ (24, set_false)
      ∷ (25, always_true)
      ∷ (26, always_true)
      ∷ (27, set_false)
      ∷ (28, always_true)
      ∷ (29, set_false)
      ∷ (30, always_true)
      ∷ (31, always_true)
      ∷ (32, set_false)
      ∷ (33, set_false)
      ∷ (34, always_true)
      ∷ (35, set_false)
      ∷ (36, always_true)
      ∷ (37, always_true)
      ∷ (38, set_false)
      ∷ (39, always_true)
      ∷ (40, always_true)
      ∷ (41, set_false)
      ∷ (42, always_true)
      ∷ (43, set_false)
      ∷ (44, always_true)
      ∷ (45, set_true)
      ∷ (46, always_true)
      ∷ (47, set_true)
      ∷ (48, always_true)
      ∷ (49, set_true)
      ∷ (50, always_true)
      ∷ (51, set_true)
      ∷ (52, always_true)
      ∷ (53, set_true)
      ∷ (54, always_true)
      ∷ (55, set_true)
      ∷ (56, always_true)
      ∷ (57, set_true)
      ∷ (58, always_true)
      ∷ (59, always_false)
      ∷ (60, always_false)
      ∷ (61, always_false)
      ∷ (62, always_false)
      ∷ (63, always_false)
      ∷ (64, always_false)
      ∷ (65, always_true)
      ∷ (66, set_false)
      ∷ (67, always_true)
      ∷ (68, always_true)
      ∷ (69, set_false)
      ∷ (70, set_false)
      ∷ (71, set_false)
      ∷ (72, always_true)
      ∷ (73, set_false)
      ∷ (74, always_true)
      ∷ (75, set_false)
      ∷ (76, always_true)
      ∷ (238, set_false)
      ∷ (239, set_false)
      ∷ (240, always_true)
      ∷ (241, always_true)
      ∷ (242, always_true)
      ∷ (243, set_false)
      ∷ (255, always_true)
      ∷ [];
  formats =
      (59, one u16 ∷ [])
      ∷ (60, one u16 ∷ [])
      ∷ (61, one u16 ∷ [])
      ∷ (62, one u16 ∷ [])
      ∷ (63, one u16 ∷ [])
      ∷ (64, one u16 ∷ [])
      ∷ [];
  functions =
      get_stack_voltage ∷ get_stack_current ∷ set_extension_type ∷ get_extension_type
      ∷ is_chibi_present ∷ set_chibi_address ∷ get_chibi_address ∷ set_chibi_master_address
      ∷ get_chibi_master_address ∷ set_chibi_slave_address ∷ get_chibi_slave_address
      ∷ get_chibi_signal_strength ∷ get_chibi_error_log ∷ set_chibi_frequency ∷ get_chibi_frequency
      ∷ set_chibi_channel ∷ get_chibi_channel ∷ is_rs485_present ∷ set_rs485_address
      ∷ get_rs485_address ∷ set_rs485_slave_address ∷ get_rs485_slave_address ∷ get_rs485_error_log
      ∷ set_rs485_configuration ∷ get_rs485_configuration ∷ is_wifi_present ∷ set_wifi_configuration
      ∷ get_wifi_configuration ∷ set_wifi_encryption ∷ get_wifi_encryption ∷ get_wifi_status
      ∷ refresh_wifi_status ∷ set_wifi_certificate ∷ get_wifi_certificate ∷ set_wifi_power_mode
      ∷ get_wifi_power_mode ∷ get_wifi_buffer_info ∷ set_wifi_regulatory_domain
      ∷ get_wifi_regulatory_domain ∷ get_usb_voltage ∷ set_long_wifi_key ∷ get_long_wifi_key
      ∷ set_wifi_hostname ∷ get_wifi_hostname ∷ set_stack_current_callback_period
      ∷ get_stack_current_callback_period ∷ set_stack_voltage_callback_period
      ∷ get_stack_voltage_callback_period ∷ set_usb_voltage_callback_period
      ∷ get_usb_voltage_callback_period ∷ set_stack_current_callback_threshold
      ∷ get_stack_current_callback_threshold ∷ set_stack_voltage_callback_threshold
      ∷ get_stack_voltage_callback_threshold ∷ set_usb_voltage_callback_threshold
      ∷ get_usb_voltage_callback_threshold ∷ set_debounce_period ∷ get_debounce_period
      ∷ is_ethernet_present ∷ set_ethernet_configuration ∷ get_ethernet_configuration
      ∷ get_ethernet_status ∷ set_ethernet_hostname ∷ set_ethernet_mac_address
      ∷ set_ethernet_websocket_configuration ∷ get_ethernet_websocket_configuration
      ∷ set_ethernet_authentication_secret ∷ get_ethernet_authentication_secret
      ∷ set_wifi_authentication_secret ∷ get_wifi_authentication_secret ∷ enable_status_led
      ∷ disable_status_led ∷ is_status_led_enabled ∷ get_protocol1_bricklet_name
      ∷ get_chip_temperature ∷ reset ∷ get_identity ∷ [];
}
