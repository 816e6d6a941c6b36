-- ===== src/Dispatch/Abort.antt =====
-- The user's disconnect while the callback thread tries to reconnect.
use lufthansa.Base.{
  ℕ, append_assoc, ◌≡◌, sym, subst, List, [], ◌∷◌, ◌++◌, true, false, none, some, arith, ok,
}
use lufthansa.State.{Connection, Thread, user, meta, exit}
use lufthansa.State.Constant
use lufthansa.Lifecycle.{Attempt, disconnect, connect_unlocked, get_connection_state, disconnected}
use lufthansa.Lifecycle.Disconnect.{farewell}
use lufthansa.Dispatch.{Try, reconnect}

-- A round before which the user calls disconnect.
abbrev pub user_disconnects : Attempt → Try
user_disconnects att = record { meanwhile = λ s. (disconnect user s).1; attempt = att }

abbrev pub Aborts : Thread → List Try → ℕ → Connection → Type 0
Aborts self tries at s =
    let (r, s') = reconnect self tries s in
    (r ≡ ok false)
    × (get_connection_state s' ≡ disconnected)
    × (s'.socket_id ≡ s.socket_id)
    × (s'.callback ≡ none)
    × (s'.auto_reconnect_allowed ≡ false)
    × (s'.auto_reconnect_pending ≡ false)
    × ((s'.contexts at).queue ≡ (s.contexts at).queue ++ farewell)

aborts :
    (self : Thread) (at : ℕ) (att : Attempt) (more : List Try) (s : Connection)
    → Aborts self
        (user_disconnects att ∷ more)
        at
        (record s { socket = none; callback = some at; auto_reconnect_pending = true })
unfolding reconnect connect_unlocked disconnect get_connection_state
aborts self at att more s = ground (
  arith,
  append_assoc (s.contexts at).queue
      (meta Constant.callback_disconnected Constant.disconnect_reason_request none ∷ [])
      (exit ∷ []),
)

-- If the user disconnects while a reconnect is pending, the loop ends without a further attempt,
-- whatever the peer would answer: the connection stays disconnected, no reconnect is pending or
-- allowed, and the callback thread gets the messages that end it.
pub reconnect-Aborts :
    (self : Thread) (at : ℕ) (att : Attempt) (more : List Try) (s : Connection)
    → s.socket ≡ none
    → s.callback ≡ some at
    → s.auto_reconnect_pending ≡ true
    → Aborts self (user_disconnects att ∷ more) at s
reconnect-Aborts self at att more s lost context pending =
    subst (Aborts self (user_disconnects att ∷ more) at)
      (λ i. record s {
        socket = sym lost i;
        callback = sym context i;
        auto_reconnect_pending = sym pending i;
      })
      (aborts self at att more s)
