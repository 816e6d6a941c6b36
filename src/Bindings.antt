-- ===== src/Bindings.antt =====
-- scripts/tinkerforge/brick_*.py and bricklet_*.py: the device classes. Each is a table: the version,
-- the response expected flag of each function, the format of each callback, and one method for each
-- function, which hands its arguments to `send_request` with the function's two formats. All of the
-- classes stand in `Devices`; the scripts drive the LED strip.
pub mod Class
pub mod Devices
pub mod Sound
use lufthansa.Base.{
  ℕ, zero, suc, ◌+◌, List, [], ◌∷◌, Bool, true, false, ◌==◌, if◌then◌else◌, not, Option, none, some,
  length, map, set, update, Result, ok, err, bind, type_error, lift, gets, modify, pure, ◌>>=◌,
  ◌>>◌,
}
use lufthansa.Format.{Form, Value}
use lufthansa.Format.Unpack.{Returned}
use lufthansa.State.{Connection, Device, Flag, Method, Packet, set_object}
use lufthansa.Device.{init, with_flag}
use lufthansa.Dispatch.{spread}
use lufthansa.Bindings.Class.{Function, Binding}
use lufthansa.Request.{send_request}

abbrev pub set_flags : List (ℕ × Flag) → List Flag → List Flag
set_flags [] flags = flags
set_flags ((id, flag) ∷ more) flags = set_flags more (with_flag id flag flags)

abbrev pub set_formats : List (ℕ × Form) → (ℕ → Option Form) → ℕ → Option Form
set_formats [] formats = formats
set_formats ((id, form) ∷ more) formats = set_formats more (update formats id (some form))

-- The lines of a constructor behind `Device.__init__`.
unfoldable pub fill : Binding → Device → Device
fill b d = record d {
  api_version = b.api_version;
  response_expected = set_flags b.flags d.response_expected;
  callback_formats = set_formats b.formats d.callback_formats;
}

-- The constructor of a device class, with the address of the new object.
unfoldable pub construct : Binding → List ℕ → Method ℕ
unfolding fill init
construct b uid = do at ← init uid; modify (λ s. set_object s at (fill b (s.objects at))); pure at

-- self.registered_callbacks[id] = callback
unfoldable pub register_callback : ℕ → ℕ → Option ℕ → Connection → Connection
register_callback at id callback s = set_object s at (record (s.objects at) {
  registered_callbacks = update (s.objects at).registered_callbacks id (some callback);
})

-- SomeTuple(*r): the fields of the tuple are filled from the elements of the result.
abbrev pub fill_tuple : ℕ → Option Returned → Result (List Value)
fill_tuple n none = err type_error
fill_tuple n (some r) = bind (spread r) λ vs. if length vs == n then ok vs else err type_error

-- What a method returns: nothing or the result as it is, or the fields of a named tuple.
pub data Reply : Type 0 where
  plain : Option Returned → Reply
  fields_of : List Value → Reply

abbrev pub reply_of : Option ℕ → Option Returned → Result Reply
reply_of none r = ok (plain r)
reply_of (some n) r = bind (fill_tuple n r) λ vs. ok (fields_of vs)

-- A call of a method on the device object at an address, with its arguments. A wrong number of
-- arguments is refused by Python.
unfoldable pub invoke : Bool → List Packet → ℕ → Function → List Value → Method Reply
unfolding send_request
invoke written arrivals at f args =
    if not (length args == f.arity) then (λ s. (err type_error, s)) else do
      r ← send_request written arrivals at f.function_id args f.form f.form_ret
      lift (reply_of f.fields r)
