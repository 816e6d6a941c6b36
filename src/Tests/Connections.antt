-- ===== src/Tests/Connections.antt =====
-- Runs of the methods that open, lose and close the connection.
use lufthansa.Base.{◌≡◌, refl, [], ◌∷◌, ◌++◌, true, false, none, some, ok}
use lufthansa.State.{Connection, user, meta, callback_processor}
use lufthansa.State.Constant
use lufthansa.Lifecycle.{Attempt, connect, get_connection_state, connected}
use lufthansa.Lifecycle.Consistent.{IsConsistent}
use lufthansa.Lifecycle.Connect.{
  success, context_after, items_before, connect_succeeds, connect_fails, Cleaned,
}
use lufthansa.Lifecycle.Send.{GivesUp, send_lost}
use lufthansa.Lifecycle.FailedStart.{Stuck, failed_receiver_keeps_socket}
use lufthansa.Dispatch.Abort.{Aborts, user_disconnects, reconnect-Aborts}
use lufthansa.Base.{[]}
use lufthansa.Dispatch.Meta.{Reconnects, finally_accepted, reconnect-Reconnects}
use lufthansa.Tests.Fixture.{context, online, offline, lost, response, some_ne}

online-IsConsistent : IsConsistent online
online-IsConsistent = (some_ne 0, some_ne 0, refl, refl)

offline-IsConsistent : IsConsistent offline
offline-IsConsistent = (refl, (λ e. cc))

connect_succeeds_example :
    let (r, s') = connect user (success 9) "localhost" 4223 offline in
    let at = context_after none 0 in
    (r ≡ ok tt)
    × (get_connection_state s' ≡ connected)
    × (s'.socket ≡ some 9)
    × (s'.socket_id ≡ 1)
    × (s'.auto_reconnect_pending ≡ false)
    × (s'.auto_reconnect_allowed ≡ false)
    × IsConsistent s'
    × (s'.callback ≡ some at)
    × ((s'.contexts at).packet_dispatch_allowed ≡ true)
    × ((s'.contexts at).queue
        ≡ items_before none offline
          ++ (meta Constant.callback_connected Constant.connect_reason_request none ∷ []))
connect_succeeds_example = connect_succeeds user "localhost" 4223 9 offline refl

-- The peer refuses.
abbrev refusal : Attempt
refusal = record {
  callback_starts = true;
  accepted = none;
  probe_starts = true;
  receiver_starts = true;
}

connect_fails_example : Cleaned (connect user refusal "localhost" 4223 offline).1
unfolding connect
connect_fails_example =
    connect_fails user refusal "localhost" 4223 offline _ refl offline-IsConsistent refl refl

send_lost_example : GivesUp response 0 online
send_lost_example = send_lost response 7 0 online refl refl refl online-IsConsistent

failed_receiver_keeps_socket_example :
    Stuck user user (success 9) "localhost" "localhost" 4223 4223 9 offline
failed_receiver_keeps_socket_example =
    failed_receiver_keeps_socket user user (success 9) "localhost" "localhost" 4223 4223 9 offline
      refl refl

reconnect-Reconnects_example : Reconnects (callback_processor 0) 9 (finally_accepted 3 9) lost
reconnect-Reconnects_example = reconnect-Reconnects (callback_processor 0) 3 0 9 lost refl refl refl

reconnect-Aborts_example :
    Aborts
      (callback_processor 0)
      (user_disconnects (success 9) ∷ [])
      0
      (record lost { auto_reconnect_pending = true })
reconnect-Aborts_example =
    reconnect-Aborts (callback_processor 0) 0 (success 9) []
      (record lost { auto_reconnect_pending = true }) refl refl refl

-- The peer has closed the connection, and the message about it waits for the callback thread.
abbrev reported_lost : Connection
reported_lost = record online {
  auto_reconnect_allowed = true;
  contexts = λ _. record context {
    queue = meta Constant.callback_disconnected Constant.disconnect_reason_shutdown (some 1) ∷ [];
  };
}
