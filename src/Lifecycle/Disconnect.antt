-- ===== src/Lifecycle/Disconnect.antt =====
-- `disconnect` and `disconnect_unlocked` on every branch.
use lufthansa.Base.{
  ℕ, ◌+◌, if◌then◌else◌, ◌≡◌, subst, append_assoc, List, [], ◌∷◌, ◌++◌, false, none, some, arith,
  ok, err, ip_error, not_connected,
}
use lufthansa.State.{
  closed, joined, receiver, prober, shut_down, callback_processor, Connection, Item, exit, meta,
  Thread,
}
use lufthansa.State.Constant
use lufthansa.Lifecycle.{is_thread, disconnect, get_connection_state, disconnected}
use lufthansa.Lifecycle.Consistent.{IsConsistent, opened, opened_lem}

-- Without a socket and with no reconnect pending `disconnect` raises "not connected". It changes
-- nothing but that a reconnect is no longer allowed.
pub disconnect_closed :
    (self : Thread) (s : Connection)
    → s.socket ≡ none
    → s.auto_reconnect_pending ≡ false
    → disconnect self s
      ≡ (err (ip_error not_connected), record s { auto_reconnect_allowed = false })
unfolding disconnect
disconnect_closed self s shut idle = ground arith

-- The last messages to a callback thread.
abbrev pub farewell : List Item
farewell = meta Constant.callback_disconnected Constant.disconnect_reason_request none ∷ exit ∷ []

abbrev pub Disconnects : Thread → ℕ → ℕ → Connection → Type 0
Disconnects self handle at s =
    let (r, s') = disconnect self s in
    (r ≡ ok tt)
    × (get_connection_state s' ≡ disconnected)
    × (s'.callback ≡ none)
    × (s'.auto_reconnect_allowed ≡ false)
    × (s'.receive_flag ≡ false)
    × (s'.disconnect_probe_thread ≡ none)
    × (s'.receive_thread ≡ none)
    × IsConsistent s'
    × ((puts : ℕ) × (s.disconnect_probe_queue ≡ some puts)
        × (s'.disconnect_probe_queue ≡ some (puts + 1)))
    × (s'.effects
        ≡ (if is_thread self at then [] else joined (callback_processor at) ∷ [])
          ++ (closed handle ∷ joined receiver ∷ shut_down handle ∷ joined prober ∷ s.effects))
    × ((s'.contexts at).packet_dispatch_allowed ≡ false)
    × ((s'.contexts at).queue ≡ (s.contexts at).queue ++ farewell)

disconnects :
    (self : Thread) (handle at puts : ℕ) (s : Connection)
    → Disconnects self handle at (opened s handle at puts)
unfolding disconnect get_connection_state
disconnects self handle at puts s = ground (
  arith,
  append_assoc (s.contexts at).queue
      (meta Constant.callback_disconnected Constant.disconnect_reason_request none ∷ [])
      (exit ∷ []),
)

pub disconnect_open :
    (self : Thread) (handle at : ℕ) (s : Connection)
    → s.socket ≡ some handle
    → s.callback ≡ some at
    → s.auto_reconnect_pending ≡ false
    → IsConsistent s
    → Disconnects self handle at s
disconnect_open self handle at s held context idle inv =
    let (puts, same) = opened_lem handle at s held context idle inv in
    subst (Disconnects self handle at) same (disconnects self handle at puts s)
