-- ===== src/Lifecycle/FailedStart.antt =====
-- A receive thread that does not start.
use lufthansa.Base.{
  ℕ, ◌≡◌, refl, sym, subst, true, false, Option, none, some, String, err, ip_error,
  already_connected, runtime_error, attribute_error,
}
use lufthansa.State.{Connection, Thread}
use lufthansa.Lifecycle.{Attempt, connect, disconnect}

abbrev pub receiver_fails : ℕ → Attempt
receiver_fails handle = record {
  callback_starts = true;
  accepted = some handle;
  probe_starts = true;
  receiver_starts = false;
}

-- The state that such an attempt leaves.
abbrev pub after_failure : Thread → String → ℕ → ℕ → Connection → Connection
after_failure self host port handle s = (connect self (receiver_fails handle) host port s).1

-- A closed connection with no reconnect pending.
abbrev settled : Connection → Option ℕ → Connection
settled s callback = record s { socket = none; auto_reconnect_pending = false; callback = callback }

settled_lem :
    (s : Connection) → s.socket ≡ none → s.auto_reconnect_pending ≡ false → settled s s.callback ≡ s
settled_lem s p q =
    λ i. record s { socket = sym p i; auto_reconnect_pending = sym q i; callback = s.callback }

-- What is left, and what the methods answer from then on.
abbrev pub Stuck : Thread → Thread → Attempt → String → String → ℕ → ℕ → ℕ → Connection → Type 0
Stuck self self' att host host' port port' handle s =
    let s' = after_failure self host port handle s in
    ((connect self (receiver_fails handle) host port s).0 ≡ err runtime_error)
    × (s'.socket ≡ some handle)
    × (connect self' att host' port' s' ≡ (err (ip_error already_connected), s'))
    × ((disconnect self' s').0 ≡ err attribute_error)
    × ((disconnect self' s').1.socket ≡ some handle)

module _ (self self' : Thread) (att : Attempt) (host host' : String) (port port' handle : ℕ)
    (s : Connection) where
  stuck :
      (callback : Option ℕ) → Stuck self self' att host host' port port' handle (settled s callback)
  unfolding connect disconnect
  stuck none = (refl, refl, refl, refl, refl)
  stuck (some at) = (refl, refl, refl, refl, refl)

-- On a closed connection with no reconnect pending, if the receive thread fails to start, the
-- cleanup of `connect` itself raises before it closes the socket: the socket stays, every further
-- `connect` raises "already connected" and changes nothing, and `disconnect` raises an
-- AttributeError and keeps the socket too.
pub failed_receiver_keeps_socket :
    (self self' : Thread) (att : Attempt) (host host' : String) (port port' handle : ℕ)
    (s : Connection)
    → s.socket ≡ none
    → s.auto_reconnect_pending ≡ false
    → Stuck self self' att host host' port port' handle s
failed_receiver_keeps_socket self self' att host host' port port' handle s closed idle =
    subst (Stuck self self' att host host' port port' handle) (settled_lem s closed idle)
      (stuck self self' att host host' port port' handle s s.callback)
