-- ===== src/Scripts/Blink/Frames.antt =====
-- The frames of scripts/a.py.
use lufthansa.Base.{
  ℕ, zero, suc, ◌+◌, ◌^◌, ◌≤◌, ◌≡◌, refl, List, [], ◌∷◌, Bool, false, length, pos, arith, ok, err,
  struct_error,
}
use lufthansa.Format.{Value, Form, size}
use lufthansa.Format.Pack.{pack_payload}
use lufthansa.Wire.{pack_exact, pack_header}
use lufthansa.State.{World, Connection, Method, slept}
use lufthansa.Device.{get_response_expected}
use lufthansa.Request.{build_request}
use lufthansa.Scripts.{rgb, set_rgb}
use lufthansa.Scripts.Sends.{rgb_form, IsReady, Writes, Sends}
use lufthansa.Scripts.Blink.{cb_frame_rendered}

abbrev pub paused : Connection → Connection
paused s = record s { effects = slept ∷ s.effects }

-- A pause and a request, for each of these calls.
pub data Renders (ls : ℕ) : List (List Value) → Connection → Connection → Type 0 where
  idle : {s : Connection} → Renders ls [] s s
  frame :
      {args : List Value} {calls : List (List Value)} {s t u : Connection}
      → Sends ls (args ∷ []) (paused s) t
      → Renders ls calls t u
      → Renders ls (args ∷ calls) s u

-- The requests that set the LED of the next index to green, so many times.
abbrev pub greens : ℕ → ℕ → List (List Value)
greens zero r_index = []
greens (suc count) r_index = rgb (pos (r_index + 1)) 1 0 255 0 ∷ greens count (r_index + 1)

-- The frames return after these requests, and the connection is still ready.
pub record Blinks (ls handle : ℕ) (m : Method (Unit {0})) (calls : List (List Value))
    (s : Connection) : Type 0 where
  pub after : Connection
  pub returns : m s ≡ (ok tt, after)
  pub renders : Renders ls calls s after
  pub ready : IsReady ls handle after

-- An index of 17 bits cannot be packed.
rgb_too_big :
    (n count r g b : ℕ)
    → 2 ^ 16 ≤ n
    → pack_payload rgb_form (rgb (pos n) count r g b) ≡ err struct_error
unfolding pack_payload size pack_exact
rgb_too_big n count r g b big = ground arith

build_request-unpacked :
    (at f : ℕ) (args : List Value) (form : Form) (expected : Bool) (s : Connection)
    → get_response_expected (s.objects at) (pos f) ≡ ok expected
    → pack_payload form args ≡ err struct_error
    → (build_request at f args form s).0 ≡ err struct_error
unfolding build_request pack_header pack_exact
build_request-unpacked at f args form expected s flag refused = ground arith

set_rgb-refused :
    (world : World) (ls : ℕ) (args : List Value) (s : Connection)
    → length args ≡ 5
    → (build_request ls 1 args rgb_form s).0 ≡ err struct_error
    → (set_rgb world ls args s).0 ≡ err struct_error
unfolding set_rgb
set_rgb-refused world ls args s five refused = rw (five, refused)

module _ (world : World) (writes : Writes world) (ls handle : ℕ) where
  -- The index is never reset. With the first one that does not fit into 16 bits the callback raises.
  pub cb_frame_rendered_overflow :
      (r_index : ℕ) (s : Connection)
      → 2 ^ 16 ≤ r_index + 1
      → IsReady ls handle s
      → ((cb_frame_rendered world ls r_index).1 s).0 ≡ err struct_error
  unfolding cb_frame_rendered
  cb_frame_rendered_overflow r_index s big ready = set_rgb-refused world ls _ (paused s) refl (
      build_request-unpacked ls 1 _ rgb_form false (paused s) ready.unanswered
        (rgb_too_big (r_index + 1) 1 0 255 0 big))
