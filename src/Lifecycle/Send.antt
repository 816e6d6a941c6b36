-- ===== src/Lifecycle/Send.antt =====
-- `send`: a packet goes out, or the connection is given up as lost.
use lufthansa.Base.{
  ℕ, ◌≡◌, subst, [], ◌∷◌, ◌++◌, Bool, true, false, none, some, arith, ok, err, ip_error,
  not_connected,
}
use lufthansa.State.{Connection, meta, Packet, sent}
use lufthansa.State.Constant
use lufthansa.Lifecycle.{send}
use lufthansa.Lifecycle.Consistent.{IsConsistent, opened, opened_lem}

-- Without a socket nothing is sent: `send` raises "not connected" and changes nothing.
pub send_closed :
    (written : Bool) (p : Packet) (s : Connection)
    → s.socket ≡ none
    → send written p s ≡ (err (ip_error not_connected), s)
unfolding send
send_closed written p s shut = ground arith

-- A packet that the socket takes is sent whole, and the probe that was due is put off; nothing else
-- changes.
pub send_written :
    (p : Packet) (handle : ℕ) (s : Connection)
    → s.socket ≡ some handle
    → send true p s
      ≡ (ok tt, record s { effects = sent p ∷ s.effects; disconnect_probe_flag = false })
unfolding send
send_written p handle s held = ground arith

abbrev pub GivesUp : Packet → ℕ → Connection → Type 0
GivesUp p at s =
    let (r, s') = send false p s in
    (r ≡ err (ip_error not_connected))
    × (s'.socket ≡ none)
    × (s'.auto_reconnect_allowed ≡ true)
    × IsConsistent s'
    × ((s'.contexts at).packet_dispatch_allowed ≡ false)
    × ((s'.contexts at).queue
        ≡ (s.contexts at).queue
          ++ (meta Constant.callback_disconnected Constant.disconnect_reason_error none ∷ []))

gives_up :
    (p : Packet) (handle at puts : ℕ) (s : Connection) → GivesUp p at (opened s handle at puts)
unfolding send
gives_up p handle at puts s = ground arith

-- A write error on an open connection closes it: `send` raises "not connected", the socket is gone,
-- a reconnect is allowed from now on, and the callback thread is told of the error.
pub send_lost :
    (p : Packet) (handle at : ℕ) (s : Connection)
    → s.socket ≡ some handle
    → s.callback ≡ some at
    → s.auto_reconnect_pending ≡ false
    → IsConsistent s
    → GivesUp p at s
send_lost p handle at s held context idle inv =
    let (puts, same) = opened_lem handle at s held context idle inv in
    subst (GivesUp p at) same (gives_up p handle at puts s)
