-- ===== src/Steps/Loops.antt =====
-- The loops of the receive thread, the prober and the callback thread, as runs of steps, whatever the
-- other threads do in between.
use lufthansa.Base.{
  modify, ℕ, suc, zero, ◌≡◌, refl, List, [], ◌∷◌, ◌++◌, Bool, length, some, none, ok, Option, inl,
  inr, ◌⊎◌, Bool-cases, pure, All, Option-cases, ◌>>=◌, take, drop, if◌then◌else◌,
}
use lufthansa.State.{Connection, Packet}
use lufthansa.State.Constant
use lufthansa.Receive.{
  handle_response, Received, bytes, interrupted, broken, frame, deliver, report, take_in,
  receive_loop, next_length, Outcome, again, left, pending_after,
}
use lufthansa.Receive
use lufthansa.Request.{probe, probe_rounds, Expiry, disconnect_probe_loop}
use lufthansa.Steps.{receives, loses, probes}
use lufthansa.Steps.Run.{
  Comes, stays, one, goes, IsRun, bind-IsRun, then-IsRun, when-IsRun, lift-IsRun, pure-IsRun,
  gets-IsRun,
}
use lufthansa.Steps.Calls.{create_packet_header-IsRun}

-- What the other threads do is a run.
abbrev pub IsFair : (Connection → Connection) → Type 0
IsFair meanwhile = (s : Connection) → Comes s (meanwhile s)

handle_response-IsRun : (p : Packet) → IsRun (handle_response p)
handle_response-IsRun p = record { run = λ s. one (receives p) }

report-IsRun : (reason socket_id : ℕ) (running : Bool) → IsRun (report reason socket_id running)
report-IsRun reason socket_id running =
    when-IsRun running (record { run = λ s. one (loses reason socket_id) })

frame-IsRun : (fuel : ℕ) (pending_data : List ℕ) → IsRun (frame fuel pending_data)
unfolding frame
frame-IsRun zero pending_data = pure-IsRun none
frame-IsRun (suc fuel) pending_data =
    bind-IsRun (gets-IsRun (λ s. s.receive_flag)) λ (running : Bool).
      bind-IsRun (lift-IsRun (if running then next_length pending_data else ok none))
        λ (found : Option ℕ). elim (Option-cases found) [
          | inl e ↦ rw e (pure-IsRun (some pending_data))
          | inr (len, e) ↦ rw e (
              then-IsRun (handle_response-IsRun (take len pending_data))
                (frame-IsRun fuel (drop len pending_data)))
        ]

take_in-IsRun :
    (socket_id : ℕ) (pending_data : List ℕ) (received : Received)
    → IsRun (take_in socket_id pending_data received)
unfolding deliver
take_in-IsRun socket_id pending_data (bytes []) =
    bind-IsRun (gets-IsRun (λ s. s.receive_flag))
      λ (running : Bool). then-IsRun (report-IsRun _ socket_id running) (pure-IsRun left)
take_in-IsRun socket_id pending_data (bytes (b ∷ bs)) =
    bind-IsRun (frame-IsRun (suc (length (pending_data ++ (b ∷ bs)))) (pending_data ++ (b ∷ bs)))
      λ (rest : Option (List ℕ)). pure-IsRun (pending_after rest)
take_in-IsRun socket_id pending_data interrupted =
    bind-IsRun (gets-IsRun (λ s. s.receive_flag))
      λ (running : Bool). pure-IsRun (if running then again pending_data else left)
take_in-IsRun socket_id pending_data broken =
    bind-IsRun (gets-IsRun (λ s. s.receive_flag))
      λ (running : Bool). then-IsRun (report-IsRun _ socket_id running) (pure-IsRun left)

Outcome-cases : (o : Outcome) → (o ≡ left) ⊎ ((rest : List ℕ) × (o ≡ again rest))
Outcome-cases left = inl refl
Outcome-cases (again rest) = inr (rest, refl)

-- What one call of `recv` brought, and the rest of the loop.
round-IsRun :
    (socket_id : ℕ) (pending_data : List ℕ) (received : Received) (es : List Receive.Event)
    → ((rest : List ℕ) → IsRun (receive_loop socket_id rest es))
    → IsRun (
        take_in socket_id pending_data received >>= λ outcome. elim outcome [
          | again rest ↦ receive_loop socket_id rest es
          | left ↦ pure left
        ])
round-IsRun socket_id pending_data received es more =
    bind-IsRun (take_in-IsRun socket_id pending_data received) λ (outcome : Outcome).
      elim (Outcome-cases outcome) [
        | inl d ↦ rw d (pure-IsRun left)
        | inr (rest, d) ↦ rw d (more rest)
      ]

pub receive_loop-IsRun :
    (socket_id : ℕ) (pending_data : List ℕ) (events : List Receive.Event)
    → All (λ e. IsFair e.meanwhile) events
    → IsRun (receive_loop socket_id pending_data events)
unfolding receive_loop
receive_loop-IsRun socket_id pending_data [] fair = pure-IsRun (again pending_data)
receive_loop-IsRun socket_id pending_data (e ∷ es) fair = record {
  run = λ s.
      let round =
        round-IsRun socket_id pending_data e.received es
          (λ rest. receive_loop-IsRun socket_id rest es fair.1) in
      elim (Bool-cases s.receive_flag) [
        | inl on ↦ elim (Option-cases s.socket) [
          | inl gone ↦ simp (on, gone) stays
          | inr (handle, held) ↦ simp (on, held) (goes (fair.0 s) (round.run (e.meanwhile s)))
        ]
        | inr stopped ↦ simp stopped stays
      ];
}

probe-IsRun : (written : Bool) (request : Packet) → IsRun (probe written request)
probe-IsRun written request = record { run = λ s. one (probes written request) }

probe_rounds-IsRun :
    (request : Packet) (expiries : List Expiry)
    → All (λ e. IsFair e.meanwhile) expiries
    → IsRun (probe_rounds request expiries)
unfolding probe_rounds
probe_rounds-IsRun request [] fair = pure-IsRun tt
probe_rounds-IsRun request (e ∷ later) fair =
    let other : IsRun (modify e.meanwhile) = record { run = fair.0 } in
    then-IsRun other (
      bind-IsRun (probe-IsRun e.written request) λ (on : Bool). elim (Bool-cases on) [
        | inl d ↦ rw d (probe_rounds-IsRun request later fair.1)
        | inr d ↦ rw d (pure-IsRun tt)
      ])

pub disconnect_probe_loop-IsRun :
    (expiries : List Expiry)
    → All (λ e. IsFair e.meanwhile) expiries
    → IsRun (disconnect_probe_loop expiries)
unfolding disconnect_probe_loop
disconnect_probe_loop-IsRun expiries fair =
    bind-IsRun (create_packet_header-IsRun none 8 Constant.function_disconnect_probe)
      λ (built : Packet × Bool × ℕ). probe_rounds-IsRun built.0 expiries fair
