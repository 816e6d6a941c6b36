-- ===== src/Dispatch.antt =====
-- scripts/tinkerforge/ip_connection.py: the callback thread. `callback_loop` takes items from the
-- queue of its context, `dispatch_meta` reports that the connection came up or went down and
-- reconnects, `dispatch_packet` calls the user's callback with the unpacked payload.
pub mod Meta
pub mod Abort
pub mod Packets
pub mod Loss
use lufthansa.Base.{
  ℕ, zero, suc, ◌+◌, List, [], ◌∷◌, ◌++◌, Bool, true, false, ◌&&◌, ◌==◌, is_number, is_none, not,
  if◌then◌else◌, Option, none, some, drop, map, pos, update, Result, ok, err, bind, type_error,
  key_error, raise, lift, gets, modify, skip, when, pure, ◌>>=◌, ◌>>◌,
}
use lufthansa.Wire.{get_uid_from_data, get_length_from_data, get_function_id_from_data}
use lufthansa.Format.{
  Code, ch, str, u8, u16, Token, one, many, Form, Scalar, int, char, Value, scalar, tuple, text,
}
use lufthansa.Format.Unpack.{deserialize_data, Returned, single, several}
use lufthansa.State.{
  Connection, Device, Method, Packet, Item, exit, meta, packet, Thread, callback_processor, emit,
  called, slept,
}
use lufthansa.State.Constant
use lufthansa.Lifecycle.{Attempt, connect_unlocked, end_prober, close_socket}

-- A call of a user's callback, which then does `act`, or raises; `None` cannot be called.
abbrev pub call : Method (Unit {0}) → Option ℕ → List Value → Method (Unit {0})
call act none args = raise type_error
call act (some f) args = emit (called f args) >> act

-- Calls the callback that is registered, unless it is missing or `None`.
abbrev pub call_registered : Method (Unit {0}) → Option (Option ℕ) → List Value → Method (Unit {0})
call_registered act none args = skip
call_registered act (some none) args = skip
call_registered act (some (some f)) args = emit (called f args) >> act

abbrev pub reason_value : ℕ → List Value
reason_value reason = scalar (int (pos reason)) ∷ []

-- The socket of the message is gone, unless it got disconnected or reconnected in the meantime.
abbrev pub drop_socket : Option ℕ → Method (Unit {0})
drop_socket socket_id = do
  held ← gets (λ s. s.socket)
  current ← gets (λ s. s.socket_id)
  when (not (is_none held) && is_number socket_id current)
      do end_prober; close_socket held; modify (λ s. record s { socket = none })

-- One round of the reconnect loop: what the other threads did before it, and the environment of the
-- attempt.
pub record Try : Type 0 where
  pub meanwhile : Connection → Connection
  pub attempt : Attempt

-- An exception in `connect_unlocked` is caught, waits and asks for another round.
abbrev pub attempt_again : Thread → Attempt → Method Bool
attempt_again self att s =
    let (r, s') = connect_unlocked self att true s in
    elim r [ ok _ ↦ (ok false, s') | err _ ↦ (ok true, record s' { effects = slept ∷ s'.effects }) ]

-- The loop `while retry`, over the rounds that it makes; `true` if it still goes on after them.
unfoldable pub reconnect : Thread → List Try → Method Bool
reconnect self [] = pure true
reconnect self (t ∷ ts) = do
  modify t.meanwhile
  allowed ← gets (λ s. s.auto_reconnect_allowed)
  held ← gets (λ s. s.socket)
  elim (allowed && is_none held) [
    | false ↦ do modify (λ s. record s { auto_reconnect_pending = false }); pure false
    | true ↦ do
      retry ← attempt_again self t.attempt
      elim retry [ false ↦ pure false | true ↦ reconnect self ts ]
  ]

-- The reconnect of a connection that was lost, if it is wanted.
abbrev pub reconnect_if_wanted : Thread → List Try → Method (Unit {0})
reconnect_if_wanted self tries = do
  wanted ← gets (λ s. s.auto_reconnect && s.auto_reconnect_allowed)
  when wanted
      do modify (λ s. record s { auto_reconnect_pending = true }); reconnect self tries; skip

-- What happens around one item of the queue: what the other threads do before it is taken, and while
-- the thread sleeps after it has closed a socket; what the user's function does, if one is called, up
-- to an exception if it raises one; and the rounds of a reconnect.
pub record Round : Type 0 where
  pub meanwhile : Connection → Connection
  pub asleep : Connection → Connection
  pub act : Method (Unit {0})
  pub tries : List Try

abbrev pub dispatch_disconnected : Thread → Round → Bool → ℕ → Option ℕ → Method (Unit {0})
dispatch_disconnected self round requested reason socket_id = do
  when (not requested) (drop_socket socket_id)
  emit slept
  modify round.asleep
  call_registered round.act (← gets (λ s. s.registered_callbacks Constant.callback_disconnected))
      (reason_value reason)
  when (not requested) (reconnect_if_wanted self round.tries)

abbrev pub dispatch_connected : Method (Unit {0}) → ℕ → Method (Unit {0})
dispatch_connected act reason = do
  call_registered act (← gets (λ s. s.registered_callbacks Constant.callback_connected))
      (reason_value reason)

unfoldable pub dispatch_meta : Thread → Round → ℕ → ℕ → Option ℕ → Method (Unit {0})
unfolding reconnect
dispatch_meta self round function_id parameter socket_id =
    if function_id == Constant.callback_connected
    then dispatch_connected round.act parameter
    else when (function_id == Constant.callback_disconnected) (
        dispatch_disconnected self round (parameter == Constant.disconnect_reason_request) parameter
          socket_id)

-- '8s 8s c 3B 3B H B'
abbrev pub enumerate_form : Form
enumerate_form = many 8 str ∷ many 8 str ∷ one ch ∷ many 3 u8 ∷ many 3 u8 ∷ one u16 ∷ one u8 ∷ []

abbrev pub characters : List ℕ → List Value
characters [] = []
characters (x ∷ xs) = scalar (char x) ∷ characters xs

-- The arguments of cb(*r).
abbrev pub spread : Returned → Result (List Value)
spread (several vs) = ok vs
spread (single (tuple xs)) = ok (map scalar xs)
spread (single (text t)) = ok (characters t)
spread (single (scalar (char x))) = ok (scalar (char x) ∷ [])
spread (single (scalar x)) = err type_error

-- The argument of cb(r).
abbrev pub as_argument : Returned → List Value
as_argument (single v) = v ∷ []
as_argument (several vs) = vs

-- The arguments that a callback gets, by its format: none, one for a format of one letter, and else
-- one for each part.
unfoldable pub callback_args : List ℕ → Option Form → Result (List Value)
callback_args payload none = err key_error
callback_args payload (some []) = ok []
callback_args payload (some (one k ∷ [])) =
    bind (deserialize_data payload (one k ∷ [])) λ r. ok (as_argument r)
callback_args payload (some form) = bind (deserialize_data payload form) spread

abbrev pub to_callback :
    Method (Unit {0}) → Packet → Option Form → Option (Option ℕ) → Method (Unit {0})
to_callback act p form none = skip
to_callback act p form (some none) = skip
to_callback act p form (some (some f)) = do
  args ← lift (callback_args (drop 8 p) form)
  emit (called f args)
  act

abbrev pub to_device_callback : Method (Unit {0}) → Packet → ℕ → Option ℕ → Method (Unit {0})
to_device_callback act p function_id none = skip
to_device_callback act p function_id (some at) = do
  d ← gets (λ s. s.objects at)
  to_callback act p (d.callback_formats function_id) (d.registered_callbacks function_id)

abbrev pub to_enumerate : Method (Unit {0}) → Packet → Option ℕ → Method (Unit {0})
to_enumerate act p cb = do
  r ← lift (deserialize_data (drop 8 p) enumerate_form)
  args ← lift (spread r)
  call act cb args

-- The branch for the enumerate callback is taken only if it is registered.
abbrev pub is_enumerate : ℕ → Option (Option ℕ) → Option (Option ℕ)
is_enumerate function_id registered =
    if function_id == Constant.callback_enumerate then registered else none

unfoldable pub dispatch_packet : Method (Unit {0}) → Packet → Method (Unit {0})
dispatch_packet act p = do
  uid ← lift (get_uid_from_data p)
  len ← lift (get_length_from_data p)
  function_id ← lift (get_function_id_from_data p)
  registered ← gets (λ s. s.registered_callbacks Constant.callback_enumerate)
  at ← gets (λ s. s.devices uid)
  elim (is_enumerate function_id registered) [
    | some cb ↦ to_enumerate act p cb
    | none ↦ to_device_callback act p function_id at
  ]

-- How a round of `callback_loop` ends: it waits for an item, it has met QUEUE_EXIT, or it goes on.
pub data Progress : Type 0 where
  blocked finished going : Progress

abbrev pub dispatch_item : ℕ → Round → Item → Method Progress
dispatch_item at round exit = pure finished
dispatch_item at round (meta function_id parameter socket_id) = do
  dispatch_meta (callback_processor at) round function_id parameter socket_id
  pure going
dispatch_item at round (packet p) = do
  context ← gets (λ s. s.contexts at)
  when context.packet_dispatch_allowed (dispatch_packet round.act p)
  pure going

abbrev pub set_items : ℕ → List Item → Connection → Connection
set_items at items s = record s {
  contexts = update s.contexts at (record (s.contexts at) { queue = items });
}

-- kind, data = callback.queue.get(), and the dispatch of the item.
abbrev pub take_item : ℕ → Round → List Item → Method Progress
take_item at round [] = pure blocked
take_item at round (item ∷ items) = do modify (set_items at items); dispatch_item at round item

unfoldable pub callback_step : ℕ → Round → Method Progress
unfolding dispatch_meta dispatch_packet
callback_step at round = do
  modify round.meanwhile
  context ← gets (λ s. s.contexts at)
  take_item at round context.queue

-- The loop, over the rounds that it makes.
unfoldable pub callback_loop : ℕ → List Round → Method Progress
unfolding callback_step
callback_loop at [] = pure going
callback_loop at (round ∷ rounds) = do
  progress ← callback_step at round
  elim progress [
    | going ↦ callback_loop at rounds
    | blocked ↦ pure blocked
    | finished ↦ pure finished
  ]
