-- ===== src/Dispatch/Packets.antt =====
-- A callback packet on the callback thread.
use lufthansa.Base.{ℕ, ◌≡◌, ◌≢◌, refl, List, [], ◌∷◌, ◌++◌, none, some, drop, arith, ok}
use lufthansa.Wire.Header.{Reads}
use lufthansa.Format.{one, many, Form, Value}
use lufthansa.Format.Typing.{HasTypes}
use lufthansa.Format.Pack.{pack_payload}
use lufthansa.Format.RoundTrip.{deserialize_data-pack}
use lufthansa.State.{Method, Connection, Packet, called}
use lufthansa.State.Constant
use lufthansa.Dispatch.{callback_args, to_device_callback, is_enumerate, dispatch_packet}

-- The format of a callback is not one counted part alone, which Python would spread into elements.
abbrev pub IsCallbackForm : Form → Type 0
IsCallbackForm (many n k ∷ []) = ⊥
IsCallbackForm _ = Unit

-- A payload that was packed from values of the callback's format gives the callback these values as
-- its arguments, one for each part of the format.
pub callback_args_values :
    (form : Form) (vs : List Value) (rest : List ℕ)
    → IsCallbackForm form
    → HasTypes form vs
    → (payload : List ℕ) × (pack_payload form vs ≡ ok payload)
      × (callback_args (payload ++ rest) (some form) ≡ ok vs)
unfolding callback_args
callback_args_values [] [] rest plain typed = ([], unfold pack_payload in refl, refl)
callback_args_values [] (v ∷ vs) rest plain typed = absurd typed
callback_args_values (t ∷ ts) [] rest plain typed = absurd typed
callback_args_values (one k ∷ []) (v ∷ []) rest plain typed =
    let (payload, packed, sized, back) = deserialize_data-pack (one k) [] (v ∷ []) rest typed in
    (payload, packed, rw back)
callback_args_values (t ∷ []) (v ∷ w ∷ vs) rest plain typed = absurd typed.1
callback_args_values (many n k ∷ []) (v ∷ []) rest plain typed = absurd plain
callback_args_values (t ∷ u ∷ ts) (v ∷ []) rest plain typed = absurd typed.1
callback_args_values (one k ∷ u ∷ ts) (v ∷ w ∷ vs) rest plain typed =
    let (payload, packed, sized, back) =
      deserialize_data-pack (one k) (u ∷ ts) (v ∷ w ∷ vs) rest typed in
    (payload, packed, rw back)
callback_args_values (many n k ∷ u ∷ ts) (v ∷ w ∷ vs) rest plain typed =
    let (payload, packed, sized, back) =
      deserialize_data-pack (many n k) (u ∷ ts) (v ∷ w ∷ vs) rest typed in
    (payload, packed, rw back)

device_callback :
    (act : Method (Unit {0})) (p : Packet) (function_id at f : ℕ) (form : Form) (args : List Value)
    (s : Connection)
    → (s.objects at).registered_callbacks function_id ≡ some (some f)
    → (s.objects at).callback_formats function_id ≡ some form
    → callback_args (drop 8 p) (some form) ≡ ok args
    → to_device_callback act p function_id (some at) s
      ≡ act (record s { effects = called f args ∷ s.effects })
device_callback act p function_id at f form args s registered format unpacked =
    rw (registered, format, unpacked)

module _ (p : Packet) (uid len function_id sequence_number error_code at : ℕ) (s : Connection)
    (reads : Reads p uid len function_id sequence_number error_code)
    (other : function_id ≢ Constant.callback_enumerate) (known : s.devices uid ≡ some at) where
  -- The callback that the packet's device has registered is called once, with the arguments that its
  -- format reads from the payload, and nothing else changes but by what the called function does.
  pub dispatch_packet_calls :
      (act : Method (Unit {0})) (f : ℕ) (form : Form) (args : List Value)
      → (s.objects at).registered_callbacks function_id ≡ some (some f)
      → (s.objects at).callback_formats function_id ≡ some form
      → callback_args (drop 8 p) (some form) ≡ ok args
      → dispatch_packet act p s ≡ act (record s { effects = called f args ∷ s.effects })
  unfolding dispatch_packet
  dispatch_packet_calls act f form args registered format unpacked =
      let plain : is_enumerate function_id (s.registered_callbacks Constant.callback_enumerate)
          ≡ none =
        ground arith in
      rw (reads.reads_uid, reads.reads_length, reads.reads_function_id, known, plain)
        (device_callback act p function_id at f form args s registered format unpacked)
