-- ===== src/Steps.antt =====
-- scripts/tinkerforge/ip_connection.py: one connection under all of its threads. A step is what one
-- thread does while no other one touches the connection: a method, or in the callback thread the
-- part under the socket lock and the assignments between such parts. The steps of all threads come
-- in any order. Of two steps not every state allows: the start of the receive thread fails, after
-- which the cleanup raises, and a disconnect by the user between the moment at which the callback
-- thread announces a reconnect and its look at a socket that is there again.
pub mod Link
pub mod Methods
pub mod Invariant
pub mod Refinement
pub mod Window
pub mod Run
pub mod Calls
pub mod Loops
pub mod Reconnect
pub mod Callbacks
pub mod Handshake
pub mod Threads
use lufthansa.Base.{
  ℕ, ◌≡◌, ◌≢◌, List, [], ◌∷◌, Bool, true, false, ◌&&◌, ◌||◌, Option, none, some, is_none, not,
  is_number, String, ℤ,
}
use lufthansa.State.{Connection, Device, Packet, Thread, Effect, Item, emit, enqueue}
use lufthansa.Lifecycle.{
  Attempt, connect, disconnect, send, handle_disconnect_by_peer, set_auto_reconnect, set_timeout,
  register_callback,
}
use lufthansa.Receive.{handle_response}
use lufthansa.Request.{get_next_sequence_number, probe}
use lufthansa.Dispatch.{drop_socket, Try, reconnect, set_items}

-- What a step is to the link with the peer. The Boolean says whether an attempt goes through, a
-- packet is written, the message is about the present socket, a probe fails, the user wants
-- reconnects.
pub data Event : Type 0 where
  connecting sending dropping retrying probing setting : Bool → Event
  disconnecting losing wanting other : Event

-- The attempt to connect goes through, if the receive thread starts.
abbrev pub goes_through : Attempt → Connection → Bool
goes_through att s =
    (not (is_none s.callback) || att.callback_starts)
    && not (is_none att.accepted)
    && att.probe_starts

-- A probe is due, and the socket does not take it.
abbrev pub probe_fails : Bool → Connection → Bool
probe_fails written s = s.disconnect_probe_flag && not (is_none s.socket) && not written

-- A round of the reconnect loop.
abbrev pub one_try : Attempt → List Try
one_try att = record { meanwhile = λ s. s; attempt = att } ∷ []

pub data Step (s : Connection) : Event → Connection → Type 0 where
  connects :
      (self : Thread) (att : Attempt) (host : String) (port : ℕ)
      → att.receiver_starts ≡ true
      → Step s (connecting (goes_through att s)) (connect self att host port s).1
  disconnects :
      (self : Thread)
      → s.auto_reconnect_pending && not (is_none s.socket) ≡ false
      → Step s disconnecting (disconnect self s).1
  sends : (written : Bool) (p : Packet) → Step s (sending written) (send written p s).1
  loses :
      (reason socket_id : ℕ)
      → Step s losing (handle_disconnect_by_peer reason (some socket_id) false s).1
  drops :
      (socket_id : ℕ)
      → Step s
          (dropping (is_number (some socket_id) s.socket_id))
          (drop_socket (some socket_id) s).1
  wants : Step s wanting (record s { auto_reconnect_pending = true })
  retries :
      (self : Thread) (att : Attempt)
      → att.receiver_starts ≡ true
      → Step s (retrying (goes_through att s)) (reconnect self (one_try att) s).1
  probes :
      (written : Bool) (p : Packet) → Step s (probing (probe_fails written s)) (probe written p s).1
  sets :
      (auto_reconnect : Bool)
      → Step s (setting auto_reconnect) (set_auto_reconnect auto_reconnect s).1
  receives : (p : Packet) → Step s other (handle_response p s).1
  numbers : Step s other (get_next_sequence_number s).1
  takes : (at : ℕ) (items : List Item) → Step s other (set_items at items s)
  acts : (e : Effect) → Step s other (emit e s).1
  times : (t : ℤ) → Step s other (set_timeout t s).1
  changes :
      (devices : ℕ → Option ℕ) (objects : ℕ → Device) (object_count : ℕ)
      → Step s other
          (record s { devices = devices; objects = objects; object_count = object_count })
  draws : (n : ℕ) → Step s other (record s { next_authentication_nonce = n })
  registers : (id : ℕ) (callback : Option ℕ) → Step s other (register_callback id callback s)

-- The states that a run comes to, with its events, the last one first.
pub data Reach (s : Connection) : List Event → Connection → Type 0 where
  here : Reach s [] s
  later :
      {es : List Event} {e : Event} {t u : Connection}
      → Reach s es t
      → Step t e u
      → Reach s (e ∷ es) u
