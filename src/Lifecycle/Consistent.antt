-- ===== src/Lifecycle/Consistent.antt =====
-- What holds between two method calls: an open socket has its callback context, its probe queue and
-- both of its threads, and a closed one has no probe thread.
use lufthansa.Base.{
  ℕ, ◌≡◌, ◌≢◌, sym, inl, inr, Option-cases, arith, Bool, true, false, Option, none, some,
}
use lufthansa.State.{Connection}

abbrev pub Fits : Option ℕ → Option ℕ → Option ℕ → Option Bool → Option Bool → Type 0
Fits none callback queue probe receive = (probe ≡ none) × (receive ≢ some false)
Fits (some handle) callback queue probe receive =
    (callback ≢ none) × (queue ≢ none) × (probe ≡ some true) × (receive ≡ some true)

abbrev pub IsConsistent : Connection → Type 0
IsConsistent s =
    Fits s.socket s.callback s.disconnect_probe_queue s.disconnect_probe_thread s.receive_thread

-- A connection with two of its fields written out, on which the methods compute.
abbrev pub at_fields : Connection → Option ℕ → Option ℕ → Connection
at_fields s socket callback = record s { socket = socket; callback = callback }

pub at_fields_lem :
    {socket callback : Option ℕ} (s : Connection)
    → s.socket ≡ socket
    → s.callback ≡ callback
    → at_fields s socket callback ≡ s
at_fields_lem s p q = λ i. record s { socket = sym p i; callback = sym q i }

-- An open connection with a context and no reconnect pending, its fields written out.
abbrev pub opened : Connection → ℕ → ℕ → ℕ → Connection
opened s handle at puts = record s {
  socket = some handle;
  callback = some at;
  auto_reconnect_pending = false;
  disconnect_probe_queue = some puts;
  disconnect_probe_thread = some true;
  receive_thread = some true;
}

pub opened_lem :
    (handle at : ℕ) (s : Connection)
    → s.socket ≡ some handle
    → s.callback ≡ some at
    → s.auto_reconnect_pending ≡ false
    → IsConsistent s
    → (puts : ℕ) × (opened s handle at puts ≡ s)
opened_lem handle at s held context idle inv = elim (Option-cases s.disconnect_probe_queue) [
  | inl e ↦ absurd (ground arith)
  | inr (puts, e) ↦
      let open_inv : Fits (some handle) s.callback s.disconnect_probe_queue
          s.disconnect_probe_thread s.receive_thread =
        rw held at inv in
      (
        puts,
        λ i. record s {
          socket = sym held i;
          callback = sym context i;
          auto_reconnect_pending = sym idle i;
          disconnect_probe_queue = sym e i;
          disconnect_probe_thread = sym open_inv.2 i;
          receive_thread = sym open_inv.3 i;
        },
      )
]
