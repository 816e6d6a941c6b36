-- ===== src/State/Constant.antt =====
-- scripts/tinkerforge/ip_connection.py: the numbers that class IPConnection names.
use lufthansa.Base.{ℕ}

abbrev pub function_enumerate : ℕ
function_enumerate = 254

abbrev pub function_adc_calibrate : ℕ
function_adc_calibrate = 251

abbrev pub function_get_adc_calibration : ℕ
function_get_adc_calibration = 250

abbrev pub function_read_bricklet_uid : ℕ
function_read_bricklet_uid = 249

abbrev pub function_write_bricklet_uid : ℕ
function_write_bricklet_uid = 248

abbrev pub function_read_bricklet_plugin : ℕ
function_read_bricklet_plugin = 247

abbrev pub function_write_bricklet_plugin : ℕ
function_write_bricklet_plugin = 246

abbrev pub function_disconnect_probe : ℕ
function_disconnect_probe = 128

abbrev pub callback_enumerate : ℕ
callback_enumerate = 253

abbrev pub callback_connected : ℕ
callback_connected = 0

abbrev pub callback_disconnected : ℕ
callback_disconnected = 1

abbrev pub broadcast_uid : ℕ
broadcast_uid = 0

abbrev pub connect_reason_request : ℕ
connect_reason_request = 0

abbrev pub connect_reason_auto_reconnect : ℕ
connect_reason_auto_reconnect = 1

abbrev pub disconnect_reason_request : ℕ
disconnect_reason_request = 0

abbrev pub disconnect_reason_error : ℕ
disconnect_reason_error = 1

abbrev pub disconnect_reason_shutdown : ℕ
disconnect_reason_shutdown = 2
