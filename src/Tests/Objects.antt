-- ===== src/Tests/Objects.antt =====
-- Runs of the routing, the callback thread and the device objects.
use lufthansa.Base.{
  skip, ℕ, ◌+◌, ◌≤◌, ◌≡◌, refl, inl, set, List, [], ◌∷◌, ◌++◌, true, false, if◌then◌else◌, is_none,
  some, ok, err, arith, pos, value_error, length,
}
use lufthansa.Base58.{base58decode, decode_loop, column_of}
use lufthansa.Lifecycle.Consistent.{IsConsistent}
use lufthansa.Request.Sequence.{CounterIsValid}
use lufthansa.Maintenance.{init_connection, blank_connection}
use lufthansa.Format.{u16, one, scalar, int, calcsize}
use lufthansa.Wire.{unpack_uint}
use lufthansa.Format.Unpack.{deserialize_data}
use lufthansa.Format.Pack.{pack_payload}
use lufthansa.State.{Connection, Device, packet, enqueue, called, set_true, always_true}
use lufthansa.Receive.{handle_response}
use lufthansa.Receive.Route.{heard, Routes, response_routed, callback_routed}
use lufthansa.Dispatch.{callback_args, dispatch_packet}
use lufthansa.Dispatch.Packets.{dispatch_packet_calls, callback_args_values}
use lufthansa.Device.{
  init, get_response_expected, set_response_expected, set_response_expected_all, is_expected,
  blank_device, initial_flags,
}
use lufthansa.Device.Flags.{get-set_response_expected, fixed_flags}
use lufthansa.Bindings.{fill}
use lufthansa.Bindings.Sound.{In, here, there, new_device, getters_expect_responses, requests_fit}
use lufthansa.Bindings.Devices
use lufthansa.Bindings.Devices.LedStrip.{get_rgb_values}
use lufthansa.Tests.Fixture.{
  response, frame_rendered, response-Reads, frame_rendered-Reads, online, led_strip, suc_ne,
}

response_routed_example : Routes response 0 8 1 online
unfolding fill blank_device
response_routed_example =
    response_routed response 1 12 8 1 0 online response-Reads 0 (suc_ne 0) refl

callback_routed_example : handle_response frame_rendered online ≡ (
  ok tt,
  if is_none (led_strip.registered_callbacks 6)
      then heard online
      else enqueue (heard online) 0 (packet frame_rendered),
)
callback_routed_example =
    callback_routed frame_rendered 1 10 6 0 0 online frame_rendered-Reads 0 0 refl
      (λ e. omega arith) refl refl

dispatch_packet_calls_example :
    dispatch_packet skip frame_rendered online
    ≡ (ok tt, record online { effects = called 42 (scalar (int (pos 16)) ∷ []) ∷ [] })
unfolding fill callback_args deserialize_data unpack_uint
dispatch_packet_calls_example =
    dispatch_packet_calls frame_rendered 1 10 6 0 0 0 online frame_rendered-Reads (λ e. omega arith)
      refl skip 42 (one u16 ∷ []) (scalar (int (pos 16)) ∷ []) refl refl refl

callback_args_values_example :
    (payload : List ℕ) × (pack_payload (one u16 ∷ []) (scalar (int (pos 16)) ∷ []) ≡ ok payload)
    × (callback_args (payload ++ []) (some (one u16 ∷ [])) ≡ ok (scalar (int (pos 16)) ∷ []))
callback_args_values_example =
    callback_args_values (one u16 ∷ []) (scalar (int (pos 16)) ∷ []) [] tt (omega arith, tt)

-- The callback thread after a disconnect.
abbrev muted : Connection
muted = record online {
  contexts = λ _. record { queue = packet frame_rendered ∷ []; packet_dispatch_allowed = false };
}

-- The LED strip after set_response_expected(1, True).
abbrev changed : Device
changed = record led_strip { response_expected = set led_strip.response_expected 1 set_true }

get-set_response_expected_example :
    (get_response_expected changed (pos 1) ≡ ok true)
    × (get_response_expected changed (pos 3) ≡ get_response_expected led_strip (pos 3))
unfolding set_response_expected fill blank_device initial_flags
get-set_response_expected_example =
    get-set_response_expected led_strip changed (pos 1) (pos 3) true refl (λ e. cc)

fixed_flags_example :
    (set_response_expected led_strip (pos 2) false ≡ err value_error)
    × (get_response_expected led_strip (pos 2) ≡ ok (is_expected always_true))
    × (get_response_expected (set_response_expected_all led_strip false) (pos 2)
        ≡ ok (is_expected always_true))
unfolding fill blank_device initial_flags
fixed_flags_example = fixed_flags led_strip 2 false always_true refl (inl refl)

led_strip-In : In Devices.LedStrip.binding Devices.bindings
led_strip-In = here _

get_rgb_values-In : In get_rgb_values Devices.LedStrip.binding.functions
get_rgb_values-In = there _ _ (here _)

getters_expect_responses_example :
    (get_response_expected (new_device Devices.LedStrip.binding 1) (pos 2) ≡ ok true)
    × (set_response_expected (new_device Devices.LedStrip.binding 1) (pos 2) false
        ≡ err value_error)
    × (get_response_expected
          (set_response_expected_all (new_device Devices.LedStrip.binding 1) false)
          (pos 2)
        ≡ ok true)
getters_expect_responses_example =
    getters_expect_responses Devices.LedStrip.binding get_rgb_values led_strip-In get_rgb_values-In
      1 false refl

requests_fit_example :
    (get_rgb_values.arity ≡ length get_rgb_values.form)
    × (8 + calcsize get_rgb_values.form ≤ 80)
    × (8 + calcsize get_rgb_values.form_ret ≤ 80)
requests_fit_example =
    requests_fit Devices.LedStrip.binding get_rgb_values led_strip-In get_rgb_values-In

-- A new connection is in good order, and its Brick Daemon has the uid 1.
new_connection_runs :
    ((init_connection blank_connection).0 ≡ ok tt)
    × IsConsistent (init_connection blank_connection).1
    × CounterIsValid (init_connection blank_connection).1
    × ((init_connection blank_connection).1.devices 1 ≡ some 0)
unfolding init_connection blank_connection init base58decode decode_loop column_of
new_connection_runs = (refl, (refl, (λ e. cc)), omega arith, refl)
