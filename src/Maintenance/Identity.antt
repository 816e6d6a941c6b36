-- ===== src/Maintenance/Identity.antt =====
-- The identifier of a bricklet as a text.
use lufthansa.Base.{ℕ, ◌≡◌, List, [], ◌∷◌, Bool, pos, pure, ◌>>◌}
use lufthansa.Base58.{base58encode}
use lufthansa.Base58.RoundTrip.{base58decode-base58encode}
use lufthansa.Format.{ch, u32, one, Value, scalar, int}
use lufthansa.State.{Connection, Packet}
use lufthansa.State.Constant
use lufthansa.Request.{send_request}
use lufthansa.Maintenance.{write_bricklet_uid}

-- Writing the text of a number as a bricklet's identifier sends that number to the device: the
-- method does what the request with that number does, errors included.
pub write_bricklet_uid-base58encode :
    (written : Bool) (arrivals : List Packet) (at v : ℕ) (port : Value) (s : Connection)
    → write_bricklet_uid written arrivals at port (base58encode v) s
      ≡ (send_request written arrivals at Constant.function_write_bricklet_uid
              (port ∷ scalar (int (pos v)) ∷ [])
              (one ch ∷ one u32 ∷ [])
              []
            >> pure tt)
          s
unfolding write_bricklet_uid
write_bricklet_uid-base58encode written arrivals at v port s = rw (base58decode-base58encode v)
