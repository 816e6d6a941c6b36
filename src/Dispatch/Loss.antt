-- ===== src/Dispatch/Loss.antt =====
-- A disconnected message on the callback thread.
use lufthansa.Base.{
  ℕ, ◌+◌, ◌≡◌, ◌≢◌, ◌⊎◌, List, [], ◌∷◌, true, false, Option, none, some, ok, skip, pos,
}
use lufthansa.Format.{scalar, int}
use lufthansa.State.{Connection, Effect, called, slept, closed, joined, prober}
use lufthansa.State.Constant
use lufthansa.Lifecycle.{get_connection_state, connected}
use lufthansa.Lifecycle.Consistent.{IsConsistent}
use lufthansa.Dispatch.{Round, callback_step, going}
use lufthansa.Dispatch.Meta.{finally_accepted}

-- No other thread interferes, the user's function does nothing to the connection, and the peer refuses
-- so many times before it accepts.
abbrev pub calm : ℕ → ℕ → Round
calm refusals handle = record {
  meanwhile = λ s. s;
  asleep = λ s. s;
  act = skip;
  tries = finally_accepted refusals handle;
}

-- The call of the user's function, if there is one.
abbrev pub reported : Option (Option ℕ) → ℕ → List Effect → List Effect
reported none reason es = es
reported (some none) reason es = es
reported (some (some f)) reason es = called f (scalar (int (pos reason)) ∷ []) ∷ es

-- The present connection is dropped and the user is told.
abbrev pub dropped : ℕ → ℕ → ℕ → Connection → Connection
dropped handle puts reason s = record s {
  disconnect_probe_queue = some (puts + 1);
  disconnect_probe_thread = none;
  socket = none;
  effects =
      reported (s.registered_callbacks Constant.callback_disconnected) reason
        (slept ∷ closed handle ∷ joined prober ∷ s.effects);
}

-- Connected again, under the next socket id and with the same callback context.
abbrev pub IsRecovered : ℕ → Connection → Connection → Type 0
IsRecovered new s t =
    (get_connection_state t ≡ connected)
    × (t.socket ≡ some new)
    × (t.socket_id ≡ s.socket_id + 1)
    × (t.auto_reconnect_pending ≡ false)
    × (t.callback ≡ s.callback)
    × IsConsistent t

-- What becomes of a disconnected message about the present socket.
abbrev pub Settles : ℕ → ℕ → ℕ → ℕ → ℕ → Connection → Type 0
Settles at n new handle reason s =
    let (r, t) = callback_step at (calm n new) s in
    let registered = s.registered_callbacks Constant.callback_disconnected in
    (r ≡ ok going)
    × (((reason ≡ Constant.disconnect_reason_request)
          × (t.socket ≡ some handle)
          × (t.socket_id ≡ s.socket_id)
          × (t.effects ≡ reported registered reason (slept ∷ s.effects)))
        ⊎ ((reason ≢ Constant.disconnect_reason_request)
            × (s.auto_reconnect ≡ true)
            × (s.auto_reconnect_allowed ≡ true)
            × IsRecovered new s t)
        ⊎ ((reason ≢ Constant.disconnect_reason_request)
            × ¬ ((s.auto_reconnect ≡ true) × (s.auto_reconnect_allowed ≡ true))
            × (t.socket ≡ none)
            × (t.auto_reconnect_pending ≡ false)
            × (t.effects
                ≡ reported registered reason (slept ∷ closed handle ∷ joined prober ∷ s.effects))))
