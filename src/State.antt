-- ===== src/State.antt =====
-- scripts/tinkerforge/ip_connection.py: the state of an `IPConnection`, with the objects that it
-- shares. Devices and callback contexts are objects that several places hold, so they live in a
-- store and are named by their address: a device handle that the user keeps and the entry of
-- `ipcon.devices` are the same address. A dict is a function of its key. A user's callback function
-- is a number, and calling it is an effect. Threads are started and joined as effects.
pub mod Constant
use lufthansa.Base.{
  ℕ, ◌+◌, List, [], ◌∷◌, ◌++◌, Bool, true, false, Option, none, some, String, update, Exec, modify,
  raise, attribute_error,
}
use lufthansa.Format.{Form, Value}

abbrev pub Packet : Type 0
Packet = List ℕ

-- The RESPONSE_EXPECTED_... values of class Device.
pub data Flag : Type 0 where
  invalid_function_id always_true always_false set_true set_false : Flag

pub record Device : Type 0 where
  pub uid : ℕ
  pub api_version : ℕ × ℕ × ℕ
  pub registered_callbacks : ℕ → Option (Option ℕ)
  pub callback_formats : ℕ → Option Form
  pub expected_response_function_id : Option ℕ
  pub expected_response_sequence_number : Option ℕ
  pub response_queue : List Packet
  pub response_expected : List Flag

-- The items of a callback queue: QUEUE_EXIT, QUEUE_META with its triple, QUEUE_PACKET.
pub data Item : Type 0 where
  exit : Item
  meta : ℕ → ℕ → Option ℕ → Item
  packet : Packet → Item

-- class CallbackContext. Its thread is the one that was started for this context.
pub record CallbackContext : Type 0 where
  pub queue : List Item
  pub packet_dispatch_allowed : Bool

pub data Thread : Type 0 where
  user receiver prober : Thread
  callback_processor : ℕ → Thread

-- What the connection does to the world outside.
pub data Effect : Type 0 where
  started : Thread → Effect
  joined : Thread → Effect
  shut_down : ℕ → Effect
  closed : ℕ → Effect
  sent : Packet → Effect
  slept : Effect
  called : ℕ → List Value → Effect

-- `receive_thread` and `disconnect_probe_thread` are `None` or a thread object with the flag that
-- says whether it has been started. The probe queue is the number of items put into it.
-- `objects`, `contexts` and `effects` (newest first) are the store and the world.
pub record Connection : Type 0 where
  pub host : Option String
  pub port : Option ℕ
  pub timeout : ℕ
  pub auto_reconnect : Bool
  pub auto_reconnect_allowed : Bool
  pub auto_reconnect_pending : Bool
  pub next_sequence_number : ℕ
  pub next_authentication_nonce : ℕ
  pub devices : ℕ → Option ℕ
  pub registered_callbacks : ℕ → Option (Option ℕ)
  pub socket : Option ℕ
  pub socket_id : ℕ
  pub receive_flag : Bool
  pub receive_thread : Option Bool
  pub callback : Option ℕ
  pub disconnect_probe_flag : Bool
  pub disconnect_probe_queue : Option ℕ
  pub disconnect_probe_thread : Option Bool
  pub waiter : ℕ
  pub brickd : Option ℕ
  pub objects : ℕ → Device
  pub object_count : ℕ
  pub contexts : ℕ → CallbackContext
  pub context_count : ℕ
  pub effects : List Effect

abbrev pub Method : Type 0 → Type 0
Method = Exec Connection

-- Something that happens outside.
abbrev pub emit : Effect → Method (Unit {0})
emit e = modify λ s. record s { effects = e ∷ s.effects }

-- context.queue.put(item)
abbrev pub enqueue : Connection → ℕ → Item → Connection
enqueue s at item = record s {
  contexts =
      update s.contexts at
        (record (s.contexts at) { queue = (s.contexts at).queue ++ (item ∷ []) });
}

-- self.callback.queue.put(item): without a context the attribute access raises.
abbrev pub put_callback : Option ℕ → Item → Method (Unit {0})
put_callback none item = raise attribute_error
put_callback (some at) item = modify λ s. enqueue s at item

-- self.callback.packet_dispatch_allowed = allowed
abbrev pub allow_dispatch : Option ℕ → Bool → Method (Unit {0})
allow_dispatch none allowed = raise attribute_error
allow_dispatch (some at) allowed = modify λ s. record s {
  contexts = update s.contexts at (record (s.contexts at) { packet_dispatch_allowed = allowed });
}

-- A write to a device object.
abbrev pub set_object : Connection → ℕ → Device → Connection
set_object s at d = record s { objects = update s.objects at d }

-- What each request meets, as a function of the state in which it is made: whether the socket takes
-- the packet, and what arrives while the caller waits.
abbrev pub World : Type 0
World = Connection → Bool × List Packet
