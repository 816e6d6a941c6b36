-- ===== src/Scripts/Sends.antt =====
-- What the scripts send: each call of set_rgb_values on an open connection is one packet, from which
-- the strip reads the arguments of the call.
use lufthansa.Base.{
  ℕ, ◌+◌, ◌%◌, ◌^◌, ◌<◌, ◌≡◌, refl, List, [], ◌∷◌, ◌++◌, true, false, some, length, drop, pos,
  arith, ok, ℤ, ◌>>◌, skip,
}
use lufthansa.Wire.Header.{Reads}
use lufthansa.Format.{Form, Value, calcsize, u16, u8, one, many}
use lufthansa.Format.Unpack.{unpack_payload}
use lufthansa.Format.Typing.{HasTypes}
use lufthansa.State.{World, Connection, Method, Packet, sent}
use lufthansa.Device.{get_response_expected}
use lufthansa.Lifecycle.Send.{send_written}
use lufthansa.Request.{build_request}
use lufthansa.Request.Sequence.{CounterIsValid}
use lufthansa.Request.Build.{request_well_formed}
use lufthansa.Scripts.{rgb, set_rgb}

-- The format 'H B 16B 16B 16B'.
abbrev pub rgb_form : Form
rgb_form = one u16 ∷ one u8 ∷ many 16 u8 ∷ many 16 u8 ∷ many 16 u8 ∷ []

-- An open connection and a LED strip object that expects no response to set_rgb_values.
pub record IsReady (ls handle : ℕ) (s : Connection) : Type 0 where
  pub is_open : s.socket ≡ some handle
  pub counted : CounterIsValid s
  pub uid_fits : (s.objects ls).uid < 2 ^ 32
  pub unanswered : get_response_expected (s.objects ls) (pos 1) ≡ ok false

-- Every packet is written.
abbrev pub Writes : World → Type 0
Writes world = (s : Connection) → (world s).0 ≡ true

-- The state after a packet has been sent.
abbrev pub after_packet : Packet → Connection → Connection
after_packet p s = record s {
  next_sequence_number = (s.next_sequence_number + 1) % 15;
  effects = sent p ∷ s.effects;
  disconnect_probe_flag = false;
}

-- One packet is sent, and it is a request of set_rgb_values with these arguments. Nothing else
-- happens.
abbrev pub SendsOne : ℕ → List Value → Connection → Connection → Type 0
SendsOne ls args s t =
    (p : Packet) × (t ≡ after_packet p s)
    × Reads p (s.objects ls).uid (length p) 1 (s.next_sequence_number + 1) 0
    × (unpack_payload rgb_form (drop 8 p) ≡ ok args)

-- These requests, one after the other.
pub data Sends (ls : ℕ) : List (List Value) → Connection → Connection → Type 0 where
  done : {s : Connection} → Sends ls [] s s
  next :
      {args : List Value} {calls : List (List Value)} {s t u : Connection}
      → SendsOne ls args s t
      → Sends ls calls t u
      → Sends ls (args ∷ calls) s u

pub Sends-append :
    {ls : ℕ} {xs ys : List (List Value)} {s t u : Connection}
    → Sends ls xs s t
    → Sends ls ys t u
    → Sends ls (xs ++ ys) s u
Sends-append done rest = rest
Sends-append (next one_call more) rest = next one_call (Sends-append more rest)

-- What sending leaves alone.
pub Sends-same :
    {ls : ℕ} {calls : List (List Value)} {s t : Connection}
    → Sends ls calls s t
    → (t.socket ≡ s.socket)
      × (t.callback ≡ s.callback)
      × (t.auto_reconnect_pending ≡ s.auto_reconnect_pending)
      × (t.disconnect_probe_queue ≡ s.disconnect_probe_queue)
      × (t.disconnect_probe_thread ≡ s.disconnect_probe_thread)
      × (t.receive_thread ≡ s.receive_thread)
Sends-same done = (refl, refl, refl, refl, refl, refl)
Sends-same (next (p, e, reads, back) more) = ground (arith, e, Sends-same more)

-- A method that returns, after sending these requests, to a connection that is still ready.
pub record Shows (ls handle : ℕ) (m : Method (Unit {0})) (calls : List (List Value))
    (s : Connection) : Type 0 where
  pub after : Connection
  pub returns : m s ≡ (ok tt, after)
  pub sends : Sends ls calls s after
  pub ready : IsReady ls handle after

after_packet-IsReady :
    {ls handle : ℕ} (p : Packet) (s : Connection)
    → IsReady ls handle s
    → IsReady ls handle (after_packet p s)
after_packet-IsReady p s ready = record {
  is_open = ready.is_open;
  counted = omega arith;
  uid_fits = ready.uid_fits;
  unanswered = ready.unanswered;
}

module _ {ls handle : ℕ} {m k : Method (Unit {0})} {xs ys : List (List Value)}
    {s : Connection} where
  -- One method after the other.
  pub Shows-then :
      (first : Shows ls handle m xs s)
      → Shows ls handle k ys first.after
      → Shows ls handle (m >> k) (xs ++ ys) s
  Shows-then first second = record {
    after = second.after;
    returns = rw (first.returns) second.returns;
    sends = Sends-append first.sends second.sends;
    ready = second.ready;
  }

pub skip-Shows : (ls handle : ℕ) (s : Connection) → IsReady ls handle s → Shows ls handle skip [] s
skip-Shows ls handle s ready = record { after = s; returns = refl; sends = done; ready = ready }

module _ (world : World) (writes : Writes world) (ls handle : ℕ) where
  set_rgb-built :
      (args : List Value) (p : Packet) (q : ℕ) (s t : Connection)
      → length args ≡ 5
      → t.socket ≡ some handle
      → build_request ls 1 args rgb_form s ≡ (ok (p, false, q), t)
      → set_rgb world ls args s
        ≡ (ok tt, record t { effects = sent p ∷ t.effects; disconnect_probe_flag = false })
  unfolding set_rgb
  set_rgb-built args p q s t five opened built =
      rw (five, built, writes s, send_written p handle t opened)

  pub set_rgb-Shows :
      (index : ℤ) (count r g b : ℕ) (s : Connection)
      → HasTypes rgb_form (rgb index count r g b)
      → IsReady ls handle s
      → Shows ls handle (set_rgb world ls (rgb index count r g b)) (rgb index count r g b ∷ []) s
  unfolding calcsize
  set_rgb-Shows index count r g b s typed ready =
      let args = rgb index count r g b in
      let (p, built, reads, back) =
        request_well_formed ls 1 args rgb_form false s ready.counted ready.uid_fits (omega arith)
          ready.unanswered typed (omega arith) in
      record {
        after = after_packet p s;
        returns = set_rgb-built args p _ s _ refl ready.is_open built;
        sends = next (p, refl, reads, back) done;
        ready = after_packet-IsReady p s ready;
      }
