-- ===== src/Device.antt =====
-- scripts/tinkerforge/ip_connection.py, class Device: the constructor and the table of response
-- expected flags, one for each of the 256 function ids.
pub mod Flags
pub mod Identity
use lufthansa.Base.{
  ℕ, zero, suc, ◌+◌, ◌<◌, List, [], ◌∷◌, Bool, true, false, ltb, leb, ◌==◌, if◌then◌else◌, Option,
  none, some, length, get_elem?, set, replicate, map, update, ℤ, pos, negsuc, Result, ok, err, bind,
  value_error, index_error, lift, gets, modify, pure, ◌>>=◌, ◌>>◌,
}
use lufthansa.Base58.{base58decode}
use lufthansa.Uid.{uid64_to_uid32}
use lufthansa.Format.{Form}
use lufthansa.State.{
  Flag, invalid_function_id, always_true, always_false, set_true, set_false, Device, Connection,
  Method, set_object,
}
use lufthansa.State.Constant

-- self.response_expected[function_id] = flag; every function id of a binding is below 256.
abbrev pub with_flag : ℕ → Flag → List Flag → List Flag
with_flag function_id flag flags = set flags function_id flag

unfoldable pub initial_flags : List Flag
initial_flags = with_flag Constant.callback_enumerate always_false (
    with_flag Constant.function_write_bricklet_plugin always_true (
      with_flag Constant.function_read_bricklet_plugin always_true (
        with_flag Constant.function_write_bricklet_uid always_true (
          with_flag Constant.function_read_bricklet_uid always_true (
            with_flag Constant.function_get_adc_calibration always_true (
              with_flag Constant.function_adc_calibrate always_true (
                with_flag Constant.function_enumerate always_false
                  (replicate 256 invalid_function_id))))))))

-- A new device object with the given uid.
unfoldable pub blank_device : ℕ → Device
unfolding initial_flags
blank_device uid = record {
  uid = uid;
  api_version = (0, 0, 0);
  registered_callbacks = λ _. none;
  callback_formats = λ _. none;
  expected_response_function_id = none;
  expected_response_sequence_number = none;
  response_queue = [];
  response_expected = initial_flags;
}

-- if uid_ > 0xFFFFFFFF: uid_ = uid64_to_uid32(uid_)
unfoldable pub uid_of : ℕ → ℕ
uid_of value = if ltb 0xFFFFFFFF value then uid64_to_uid32 value else value

-- The object gets the next address, and `ipcon.devices[self.uid] = self`.
abbrev pub add_object : Device → Connection → Connection
add_object d s = record s {
  objects = update s.objects s.object_count d;
  object_count = s.object_count + 1;
  devices = update s.devices d.uid (some s.object_count);
}

-- Device.__init__, with the address of the new object.
unfoldable pub init : List ℕ → Method ℕ
unfolding blank_device uid_of
init uid = do
  value ← lift (base58decode uid)
  at ← gets (λ s. s.object_count)
  modify (add_object (blank_device (uid_of value)))
  pure at

abbrev pub get_api_version : Device → ℕ × ℕ × ℕ
get_api_version d = d.api_version

-- The flag of a function id, after the range check and the check for an invalid id.
abbrev pub checked : Option Flag → Result Flag
checked none = err value_error
checked (some invalid_function_id) = err value_error
checked (some flag) = ok flag

unfoldable pub flag_of : List Flag → ℤ → Result Flag
flag_of flags (negsuc n) = err value_error
flag_of flags (pos n) = checked (get_elem? flags n)

abbrev pub is_expected : Flag → Bool
is_expected always_true = true
is_expected set_true = true
is_expected _ = false

unfoldable pub get_response_expected : Device → ℤ → Result Bool
unfolding flag_of
get_response_expected d function_id =
    bind (flag_of d.response_expected function_id) λ flag. ok (is_expected flag)

abbrev pub chosen : Bool → Flag
chosen true = set_true
chosen false = set_false

abbrev pub may_change : Flag → Result (Unit {0})
may_change always_true = err value_error
may_change always_false = err value_error
may_change _ = ok tt

-- The number of a function id that has passed the range check.
abbrev pub index : ℤ → ℕ
index (pos n) = n
index (negsuc n) = 0

unfoldable pub set_response_expected : Device → ℤ → Bool → Result Device
unfolding flag_of
set_response_expected d function_id response_expected =
    bind (flag_of d.response_expected function_id) λ flag. bind (may_change flag) λ _.
      ok (record d {
        response_expected = set d.response_expected (index function_id) (chosen response_expected);
      })

-- The body of the loop over all function ids.
abbrev pub choose : Bool → Flag → Flag
choose response_expected set_true = chosen response_expected
choose response_expected set_false = chosen response_expected
choose response_expected flag = flag

unfoldable pub set_response_expected_all : Device → Bool → Device
set_response_expected_all d response_expected = record d {
  response_expected = map (choose response_expected) d.response_expected;
}
