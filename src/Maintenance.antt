-- ===== src/Maintenance.antt =====
-- scripts/tinkerforge/ip_connection.py: class BrickDaemon, the constructor of IPConnection, and the
-- methods from write_bricklet_plugin to read_bricklet_uid, which are requests to a given device.
pub mod Identity
use lufthansa.Base.{
  ℕ, List, [], ◌∷◌, Bool, true, false, Option, none, some, Result, ok, err, type_error, value_error,
  lift, gets, modify, pure, ◌>>=◌, ◌>>◌, pos, negsuc,
}
use lufthansa.Base58.{base58decode, base58encode}
use lufthansa.Format.{ch, i16, u8, u32, one, many, Value, scalar, int, text}
use lufthansa.Format.Unpack.{Returned, single, several}
use lufthansa.State.{Connection, Method, Packet, always_true, set_true, set_object}
use lufthansa.State.Constant
use lufthansa.Device.{init, blank_device, with_flag}
use lufthansa.Lifecycle.{fresh_context}
use lufthansa.Request.{send_request}

-- The connection before its Brick Daemon object is made.
unfoldable pub blank_connection : Connection
unfolding blank_device
blank_connection = record {
  host = none;
  port = none;
  timeout = 2500;
  auto_reconnect = true;
  auto_reconnect_allowed = false;
  auto_reconnect_pending = false;
  next_sequence_number = 0;
  next_authentication_nonce = 0;
  devices = λ _. none;
  registered_callbacks = λ _. none;
  socket = none;
  socket_id = 0;
  receive_flag = false;
  receive_thread = none;
  callback = none;
  disconnect_probe_flag = false;
  disconnect_probe_queue = none;
  disconnect_probe_thread = none;
  waiter = 1;
  brickd = none;
  objects = λ _. blank_device 0;
  object_count = 0;
  contexts = λ _. fresh_context;
  context_count = 0;
  effects = [];
}

-- BrickDaemon.__init__
unfoldable pub init_brick_daemon : List ℕ → Method ℕ
unfolding init
init_brick_daemon uid = do
  at ← init uid
  modify λ s. set_object s at (record (s.objects at) {
    api_version = (2, 0, 0);
    response_expected =
        with_flag 2 set_true (with_flag 1 always_true (s.objects at).response_expected);
  })
  pure at

-- IPConnection.__init__, on the blank connection; the character '2' is 50.
unfoldable pub init_connection : Method (Unit {0})
unfolding init_brick_daemon
init_connection = do at ← init_brick_daemon (50 ∷ []); modify (λ s. record s { brickd = some at })

module _ (written : Bool) (arrivals : List Packet) (at : ℕ) where
  unfoldable pub get_authentication_nonce : Method (Option Returned)
  unfolding send_request
  get_authentication_nonce = send_request written arrivals at 1 [] [] (many 4 u8 ∷ [])

  unfoldable pub authenticate_daemon : Value → Value → Method (Unit {0})
  unfolding send_request
  authenticate_daemon client_nonce digest = do
    send_request written arrivals at 2 (client_nonce ∷ digest ∷ []) (many 4 u8 ∷ many 20 u8 ∷ []) []
    pure tt

  unfoldable pub write_bricklet_plugin : Value → Value → Value → Method (Unit {0})
  unfolding send_request
  write_bricklet_plugin port position plugin_chunk = do
    send_request written arrivals at Constant.function_write_bricklet_plugin
        (port ∷ position ∷ plugin_chunk ∷ []) (one ch ∷ one u8 ∷ many 32 u8 ∷ []) []
    pure tt

  unfoldable pub read_bricklet_plugin : Value → Value → Method (Option Returned)
  unfolding send_request
  read_bricklet_plugin port position =
      send_request written arrivals at Constant.function_read_bricklet_plugin (port ∷ position ∷ [])
        (one ch ∷ one u8 ∷ []) (many 32 u8 ∷ [])

  unfoldable pub get_adc_calibration : Method (Option Returned)
  unfolding send_request
  get_adc_calibration =
      send_request written arrivals at Constant.function_get_adc_calibration [] []
        (one i16 ∷ one i16 ∷ [])

  unfoldable pub adc_calibrate : Value → Method (Unit {0})
  unfolding send_request
  adc_calibrate port = do
    send_request written arrivals at Constant.function_adc_calibrate (port ∷ []) (one ch ∷ []) []
    pure tt

  unfoldable pub write_bricklet_uid : Value → List ℕ → Method (Unit {0})
  unfolding send_request
  write_bricklet_uid port uid = do
    uid_int ← lift (base58decode uid)
    send_request written arrivals at Constant.function_write_bricklet_uid
        (port ∷ scalar (int (pos uid_int)) ∷ []) (one ch ∷ one u32 ∷ []) []
    pure tt

  -- base58encode on what `send_request` returned.
  abbrev pub encode_uid : Option Returned → Result (List ℕ)
  encode_uid (some (single (scalar (int (pos n))))) = ok (base58encode n)
  encode_uid _ = err type_error

  unfoldable pub read_bricklet_uid : Value → Method (List ℕ)
  unfolding send_request
  read_bricklet_uid port = do
    uid_int ←
        send_request written arrivals at Constant.function_read_bricklet_uid (port ∷ [])
          (one ch ∷ []) (one u32 ∷ [])
    lift (encode_uid uid_int)
