-- ===== src/Device/Identity.antt =====
-- The uid of a device object.
use lufthansa.Base.{ℕ, ◌^◌, ◌<◌, ◌≡◌, List, some, ok, Result-cases, inl, inr, arith}
use lufthansa.Base58.{base58decode}
use lufthansa.Uid.Bound.{uid64_to_uid32-lt}
use lufthansa.State.{Connection}
use lufthansa.Device.{uid_of, init}

uid_of-lt : (value : ℕ) → uid_of value < 2 ^ 32
unfolding uid_of
uid_of-lt value = ground (arith, uid64_to_uid32-lt value)

-- Whatever text the constructor of a device object accepts, the object has a 32-bit uid, and it is the
-- one that packets with that uid reach.
pub init-uid :
    (uid : List ℕ) (at : ℕ) (s : Connection)
    → (init uid s).0 ≡ ok at
    → let t = (init uid s).1 in
      ((t.objects at).uid < 2 ^ 32) × (t.devices (t.objects at).uid ≡ some at)
unfolding init
init-uid uid at s made = elim (Result-cases (base58decode uid)) [
  | inl (v, decoded) ↦ ground (arith, decoded, uid_of-lt v)
  | inr (e, refused) ↦ ground (arith, refused)
]
