-- ===== src/Dispatch/Meta.antt =====
-- The connection that went down: a stale message closes nothing, and the reconnect loop goes on until
-- an attempt succeeds or the user has taken over.
use lufthansa.Base.{
  ℕ, zero, suc, ◌+◌, ◌≡◌, ◌≢◌, sym, subst, List, [], ◌∷◌, true, false, none, some, arith, ok,
}
use lufthansa.State.{Connection, Thread, slept}
use lufthansa.Lifecycle.{connect_unlocked, get_connection_state, connected}
use lufthansa.Lifecycle.Connect.{success}
use lufthansa.Lifecycle.Consistent.{IsConsistent}
use lufthansa.Dispatch.{drop_socket, Try, reconnect}

-- A message of an earlier connection leaves the socket of the present one alone.
pub drop_socket_stale :
    (socket_id : ℕ) (s : Connection)
    → socket_id ≢ s.socket_id
    → drop_socket (some socket_id) s ≡ (ok tt, s)
drop_socket_stale socket_id s stale = ground arith

-- A round of the reconnect loop in which no other thread interferes and the peer refuses.
abbrev pub refused : Try
refused = record {
  meanwhile = λ s. s;
  attempt = record {
    callback_starts = true;
    accepted = none;
    probe_starts = true;
    receiver_starts = true;
  };
}

-- A round in which it accepts.
abbrev pub accepted : ℕ → Try
accepted handle = record { meanwhile = λ s. s; attempt = success handle }

-- So many rounds that fail, and then one that does not.
abbrev pub finally_accepted : ℕ → ℕ → List Try
finally_accepted zero handle = accepted handle ∷ []
finally_accepted (suc n) handle = refused ∷ finally_accepted n handle

abbrev pub Reconnects : Thread → ℕ → List Try → Connection → Type 0
Reconnects self handle tries s =
    let (r, s') = reconnect self tries s in
    (r ≡ ok false)
    × (get_connection_state s' ≡ connected)
    × (s'.socket ≡ some handle)
    × (s'.socket_id ≡ s.socket_id + 1)
    × (s'.auto_reconnect_pending ≡ false)
    × (s'.callback ≡ s.callback)
    × IsConsistent s'

reconnects :
    (self : Thread) (n at handle : ℕ) (s : Connection)
    → Reconnects self handle
        (finally_accepted n handle)
        (record s { socket = none; callback = some at; auto_reconnect_allowed = true })
unfolding reconnect connect_unlocked get_connection_state
reconnects self zero at handle s = ground arith
reconnects self (suc n) at handle s =
    reconnects self n at handle (record s { effects = slept ∷ s.effects })

-- However often the peer refuses, once it accepts the lost connection is connected again, under the
-- next socket id, with the same callback context and with no reconnect pending.
pub reconnect-Reconnects :
    (self : Thread) (n at handle : ℕ) (s : Connection)
    → s.socket ≡ none
    → s.callback ≡ some at
    → s.auto_reconnect_allowed ≡ true
    → Reconnects self handle (finally_accepted n handle) s
reconnect-Reconnects self n at handle s lost context allowed =
    subst (Reconnects self handle (finally_accepted n handle))
      (λ i. record s {
        socket = sym lost i;
        callback = sym context i;
        auto_reconnect_allowed = sym allowed i;
      })
      (reconnects self n at handle s)
