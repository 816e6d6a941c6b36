-- ===== src/Tests/Fixture.antt =====
-- A connection with one LED strip, and packets for it.
use lufthansa.Base.{ℕ, ◌+◌, arith, List, [], ◌∷◌, true, false, none, some, update, ◌≢◌, refl}
use lufthansa.Wire.{
  get_uid_from_data, get_length_from_data, get_function_id_from_data, get_sequence_number_from_data,
  get_error_code_from_data, unpack_exact, unpack_uint,
}
use lufthansa.Wire.Header.{Reads}
use lufthansa.State.{Connection, Device, CallbackContext, Packet}
use lufthansa.Bindings.Sound.{new_device}
use lufthansa.Bindings.Devices
use lufthansa.Bindings.Devices.{bindings}

-- The response to get_clock_frequency, 400000 Hz, with sequence number 1.
abbrev pub response : Packet
response = 1 ∷ 0 ∷ 0 ∷ 0 ∷ 12 ∷ 8 ∷ 24 ∷ 0 ∷ 128 ∷ 26 ∷ 6 ∷ 0 ∷ []

-- CALLBACK_FRAME_RENDERED with a length of 16.
abbrev pub frame_rendered : Packet
frame_rendered = 1 ∷ 0 ∷ 0 ∷ 0 ∷ 10 ∷ 6 ∷ 8 ∷ 0 ∷ 16 ∷ 0 ∷ []

pub response-Reads : Reads response 1 12 8 1 0
unfolding get_uid_from_data get_length_from_data get_function_id_from_data
    get_sequence_number_from_data get_error_code_from_data unpack_exact unpack_uint
response-Reads = record {
  reads_uid = refl;
  reads_length = refl;
  reads_function_id = refl;
  reads_sequence_number = refl;
  reads_error_code = refl;
}

pub frame_rendered-Reads : Reads frame_rendered 1 10 6 0 0
unfolding get_uid_from_data get_length_from_data get_function_id_from_data
    get_sequence_number_from_data get_error_code_from_data unpack_exact unpack_uint
frame_rendered-Reads = record {
  reads_uid = refl;
  reads_length = refl;
  reads_function_id = refl;
  reads_sequence_number = refl;
  reads_error_code = refl;
}

-- A LED strip that waits for that response and has its callback registered.
abbrev pub led_strip : Device
led_strip = record (new_device Devices.LedStrip.binding 1) {
  registered_callbacks = update (λ _. none) 6 (some (some 42));
  expected_response_function_id = some 8;
  expected_response_sequence_number = some 1;
}

abbrev pub context : CallbackContext
context = record { queue = []; packet_dispatch_allowed = true }

-- An open connection.
abbrev pub online : Connection
online = record {
  host = some "localhost";
  port = some 4223;
  timeout = 2500;
  auto_reconnect = true;
  auto_reconnect_allowed = false;
  auto_reconnect_pending = false;
  next_sequence_number = 0;
  next_authentication_nonce = 0;
  devices = update (λ _. none) 1 (some 0);
  registered_callbacks = λ _. none;
  socket = some 7;
  socket_id = 1;
  receive_flag = true;
  receive_thread = some true;
  callback = some 0;
  disconnect_probe_flag = true;
  disconnect_probe_queue = some 0;
  disconnect_probe_thread = some true;
  waiter = 1;
  brickd = none;
  objects = λ _. led_strip;
  object_count = 1;
  contexts = λ _. context;
  context_count = 1;
  effects = [];
}

-- A connection before the first connect.
abbrev pub offline : Connection
offline = record online {
  socket = none;
  socket_id = 0;
  receive_flag = false;
  receive_thread = none;
  callback = none;
  disconnect_probe_queue = none;
  disconnect_probe_thread = none;
  context_count = 0;
}

-- A connection that the peer has closed.
abbrev pub lost : Connection
lost = record online {
  auto_reconnect_allowed = true;
  socket = none;
  receive_flag = false;
  receive_thread = none;
  disconnect_probe_queue = none;
  disconnect_probe_thread = none;
}

pub cons_ne : (x : ℕ) (xs : List ℕ) → x ∷ xs ≢ []
cons_ne x xs = λ e. cc

pub suc_ne : (n : ℕ) → 1 + n ≢ 0
suc_ne n = λ e. omega arith

pub some_ne : (n : ℕ) → some n ≢ none
some_ne n = λ e. cc
