-- ===== src/Tests/Threads.antt =====
-- Runs of the threads, and of the handshake.
use lufthansa.Base.{
  ℕ, ◌≡◌, refl, List, [], ◌∷◌, true, false, none, some, codes, replicate, set, length, arith,
}
use lufthansa.Wire.{
  get_length_from_data, pack_uint, get_function_id_from_data, unpack_exact,
  get_sequence_number_from_data, unpack_uint, get_uid_from_data, get_error_code_from_data,
}
use lufthansa.State.{Connection, Device, Packet, World, user, callback_processor, always_true}
use lufthansa.Lifecycle.{connect, get_connection_state, handle_disconnect_by_peer, disconnect}
use lufthansa.Lifecycle.Connect.{success}
use lufthansa.Lifecycle.Consistent.{IsConsistent}
use lufthansa.Dispatch.{drop_socket, reconnect}
use lufthansa.Steps.{
  connecting, connects, losing, dropping, wanting, retrying, Reach, here, later, loses, drops,
  wants, retries, one_try,
}
use lufthansa.Steps.Link.{link, told}
use lufthansa.Steps.Invariant.{Reach-IsConsistent}
use lufthansa.Steps.Refinement.{after_events, Reach-link, disconnect_stays_closed}
use lufthansa.Steps.Window.{LeavesOpen, disconnect-LeavesOpen}
use lufthansa.Device.{get_response_expected, blank_device}
use lufthansa.Bindings.{fill}
use lufthansa.Authentication.{Entropy, authenticate, random}
use lufthansa.Authentication.Handshake.{IsReady, Gives, Handshakes, authenticate_handshake}
use lufthansa.Request.{search_queue}
use lufthansa.Tests.Fixture.{online, led_strip, some_ne, suc_ne}

online-is-IsConsistent : IsConsistent online
online-is-IsConsistent = (some_ne 0, some_ne 0, refl, refl)

-- The peer closes the connection, the callback thread drops the socket and reconnects.
abbrev reported : Connection
unfolding handle_disconnect_by_peer
reported = (handle_disconnect_by_peer 2 (some 1) false online).1

abbrev dropped : Connection
unfolding handle_disconnect_by_peer
dropped = (drop_socket (some 1) reported).1

abbrev awaiting : Connection
unfolding handle_disconnect_by_peer
awaiting = record dropped { auto_reconnect_pending = true }

abbrev recovered : Connection
unfolding handle_disconnect_by_peer reconnect
recovered = (reconnect (callback_processor 0) (one_try (success 8)) awaiting).1

recovery : Reach online (retrying true ∷ wanting ∷ dropping true ∷ losing ∷ []) recovered
unfolding handle_disconnect_by_peer reconnect
recovery =
    later (later (later (later here (loses 2 1)) (drops 1)) wants)
      (retries (callback_processor 0) (success 8) refl)

Reach-IsConsistent_example : IsConsistent recovered
Reach-IsConsistent_example = Reach-IsConsistent online-is-IsConsistent recovery

Reach-link_example :
    (link recovered
      ≡ after_events (retrying true ∷ wanting ∷ dropping true ∷ losing ∷ []) (link online))
    × (get_connection_state recovered
        ≡ told (after_events (retrying true ∷ wanting ∷ dropping true ∷ losing ∷ []) (link online)))
Reach-link_example = Reach-link online-is-IsConsistent recovery

-- A round of a reconnect loop after the user's disconnect.
late_retry :
    Reach
      (disconnect user online).1
      (retrying true ∷ [])
      (reconnect (callback_processor 0) (one_try (success 8)) (disconnect user online).1).1
unfolding disconnect
late_retry = later here (retries (callback_processor 0) (success 8) refl)

disconnect_stays_closed_example :
    let t = (reconnect (callback_processor 0) (one_try (success 8)) (disconnect user online).1).1 in
    (t.socket ≡ none) × (t.auto_reconnect_allowed ≡ false)
disconnect_stays_closed_example =
    disconnect_stays_closed user online online-is-IsConsistent refl late_retry (tt, tt)

-- After the drop the user connects, the new connection is reported lost as well, and then the callback
-- thread announces a reconnect.
abbrev connected_again : Connection
unfolding handle_disconnect_by_peer connect
connected_again = (connect user (success 8) "localhost" 4223 dropped).1

abbrev announced : Connection
unfolding handle_disconnect_by_peer connect
announced = record (handle_disconnect_by_peer 2 (some 2) false connected_again).1 {
  auto_reconnect_pending = true;
}

window_reached :
    Reach online (wanting ∷ losing ∷ connecting true ∷ dropping true ∷ losing ∷ []) announced
unfolding handle_disconnect_by_peer connect
window_reached =
    later
      (later
        (later (later (later here (loses 2 1)) (drops 1))
          (connects user (success 8) "localhost" 4223 refl))
        (loses 2 2))
      wants

disconnect-LeavesOpen_example : LeavesOpen user 8 announced
unfolding handle_disconnect_by_peer connect
disconnect-LeavesOpen_example = disconnect-LeavesOpen user 8 0 announced refl refl refl

-- A Brick Daemon object, and its answer with the server's nonce.
abbrev daemon : Device
daemon = record led_strip { response_expected = set led_strip.response_expected 1 always_true }

abbrev with_daemon : Connection
with_daemon = record online {
  brickd = some 0;
  objects = λ _. daemon;
  next_authentication_nonce = 5;
}

abbrev nonce_response : Packet
nonce_response = 1 ∷ 0 ∷ 0 ∷ 0 ∷ 12 ∷ 1 ∷ 24 ∷ 0 ∷ 1 ∷ 2 ∷ 3 ∷ 4 ∷ []

abbrev daemon_answers : World
daemon_answers s = (true, nonce_response ∷ [])

abbrev hmac : List ℕ → List ℕ → List ℕ
hmac key message = replicate 20 (length message)

with_daemon-IsReady : IsReady 0 7 true with_daemon
unfolding fill blank_device search_queue get_response_expected
with_daemon-IsReady = record {
  brickd = refl;
  is_open = refl;
  counted = omega arith;
  uid_fits = omega arith;
  known = refl;
  asked = refl;
  told = refl;
  stale = refl;
}

daemon-Gives : Gives 1 1 (1 ∷ 2 ∷ 3 ∷ 4 ∷ []) (daemon_answers with_daemon).1
unfolding get_uid_from_data get_length_from_data get_function_id_from_data
    get_sequence_number_from_data get_error_code_from_data unpack_exact unpack_uint
daemon-Gives = record {
  header = 1 ∷ 0 ∷ 0 ∷ 0 ∷ 12 ∷ 1 ∷ 24 ∷ 0 ∷ [];
  later = [];
  first = refl;
  eight = refl;
  four = refl;
  bytes = omega arith;
  len = 12;
  reads = record {
    reads_uid = refl;
    reads_length = refl;
    reads_function_id = refl;
    reads_sequence_number = refl;
    reads_error_code = refl;
  };
}

-- The nonce of the client is 5.
abbrev entropy : Entropy
entropy = random (9 ∷ 9 ∷ 9 ∷ 9 ∷ [])

authenticate_handshake_example :
    Handshakes 0
      (pack_uint 4 5)
      (replicate 20 8)
      6
      with_daemon
      (authenticate hmac entropy daemon_answers (codes "pw") with_daemon).1
unfolding pack_uint fill blank_device
authenticate_handshake_example =
    authenticate_handshake daemon_answers (λ s. refl) 0 7 true with_daemon with_daemon-IsReady hmac
      entropy (codes "pw") (codes "pw") (1 ∷ 2 ∷ 3 ∷ 4 ∷ []) 5 refl refl (suc_ne 4) (omega arith)
      daemon-Gives refl (omega arith)
