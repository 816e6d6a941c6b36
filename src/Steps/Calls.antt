-- ===== src/Steps/Calls.antt =====
-- Calls of the device classes, as runs of steps.
use lufthansa.Base.{
  Result, sym, subst, arith, pos, Option, ℕ, ◌≡◌, List, [], ◌∷◌, Bool, not, ◌==◌, length, some,
  none, ok, err, Result-cases, inl, inr, Bool-cases, modify, finally, ◌>>◌,
}
use lufthansa.Wire.{pack_header}
use lufthansa.Format.{Form, Value}
use lufthansa.State.{Device, set_object, Connection, Packet}
use lufthansa.Device.{get_response_expected}
use lufthansa.Lifecycle.{send}
use lufthansa.Receive.{handle_response}
use lufthansa.Request.{
  get_next_sequence_number, addressee, create_packet_header, build_request, poll, last_poll,
  await_response, expect, exchange, send_request,
}
use lufthansa.Bindings.{invoke}
use lufthansa.Bindings.Class.{Function}
use lufthansa.Steps.{sends, receives, numbers, changes}
use lufthansa.Steps.Run.{
  Comes, stays, one, goes, IsRun, bind-IsRun, then-IsRun, lift-IsRun, pure-IsRun, gets-IsRun,
}

pub send-IsRun : (written : Bool) (p : Packet) → IsRun (send written p)
send-IsRun written p = record { run = λ s. one (sends written p) }

addressee-IsRun : (device : Option ℕ) (f : ℕ) → IsRun (addressee device f)
addressee-IsRun none f = pure-IsRun _
addressee-IsRun (some at) f = bind-IsRun (gets-IsRun (λ s. s.objects at)) λ (d : Device).
    bind-IsRun (lift-IsRun (get_response_expected d (pos f)))
      λ (expected : Bool). pure-IsRun (d.uid, expected)

get_next_sequence_number-IsRun : IsRun get_next_sequence_number
get_next_sequence_number-IsRun = record { run = λ s. one numbers }

pub create_packet_header-IsRun :
    (device : Option ℕ) (len f : ℕ) → IsRun (create_packet_header device len f)
unfolding create_packet_header
create_packet_header-IsRun device len f = bind-IsRun get_next_sequence_number-IsRun (λ q.
    bind-IsRun (addressee-IsRun device f) (λ (to : ℕ × Bool).
      bind-IsRun (lift-IsRun (pack_header to.0 len f q to.1))
        (λ (header : List ℕ). pure-IsRun (header, to.1, q))))

build_request-IsRun :
    (at f : ℕ) (args : List Value) (form : Form) → IsRun (build_request at f args form)
unfolding build_request
build_request-IsRun at f args form =
    bind-IsRun (create_packet_header-IsRun (some at) _ f)
      (λ r. bind-IsRun (lift-IsRun _) (λ payload. pure-IsRun _))

-- A write to a device object.
object-IsRun : (at : ℕ) (d : Connection → Device) → IsRun (modify (λ s. set_object s at (d s)))
object-IsRun at d = record { run = λ s. one (changes s.devices _ s.object_count) }

-- It changes the device object alone.
poll_lem :
    (at f q : ℕ) (s : Connection)
    → (poll at f q s).1 ≡ record s { objects = (poll at f q s).1.objects }
unfolding poll
poll_lem at f q s = ground arith

last_poll_lem : (at f q : ℕ) (s : Connection) → (last_poll at f q s).1 ≡ (poll at f q s).1
unfolding last_poll
last_poll_lem at f q s = ground arith

poll-IsRun : (at f q : ℕ) → IsRun (poll at f q)
poll-IsRun at f q = record {
  run = λ s. subst (Comes s) (sym (poll_lem at f q s)) (one (changes s.devices _ s.object_count));
}

last_poll-IsRun : (at f q : ℕ) → IsRun (last_poll at f q)
last_poll-IsRun at f q = record {
  run = λ s. subst (Comes s) (sym (last_poll_lem at f q s)) ((poll-IsRun at f q).run s);
}

-- After the receive thread has handled a packet.
handled :
    {s : Connection} (at f q : ℕ) (ps : List Packet) (r : Result (Unit {0})) (u : Connection)
    → IsRun (await_response at f q ps)
    → Comes s u
    → Comes s (
        let next : Result Packet × Connection = elim r [
          | ok _ ↦ await_response at f q ps u
          | err _ ↦ last_poll at f q u
        ] in
        next.1)
handled at f q ps (ok a) u more sofar = goes sofar (more.run u)
handled at f q ps (err x) u more sofar = goes sofar ((last_poll-IsRun at f q).run u)

await_response-IsRun :
    (at f q : ℕ) (arrivals : List Packet) → IsRun (await_response at f q arrivals)
unfolding await_response
await_response-IsRun at f q [] = last_poll-IsRun at f q
await_response-IsRun at f q (p ∷ ps) = record {
  run = λ s.
      let polled = (poll-IsRun at f q).run s in
      let t = (poll at f q s).1 in
      elim (Result-cases (poll at f q s).0) [
        | inl (some r, e) ↦ rw e polled
        | inl (none, e) ↦ rw e (
            handled at f q ps (handle_response p t).0 (handle_response p t).1
              (await_response-IsRun at f q ps) (goes polled (one (receives p))))
        | inr (x, e) ↦ rw e polled
      ];
}

exchange-IsRun :
    (at f q : ℕ) (request : Packet) (written : Bool) (arrivals : List Packet)
    → IsRun (exchange at f q request written arrivals)
unfolding exchange
exchange-IsRun at f q request written arrivals =
    then-IsRun
      {k = finally (send written request >> await_response at f q arrivals) (expect at none none)}
      (object-IsRun at _)
      (record {
        run = λ s.
            let body =
              then-IsRun (send-IsRun written request) (await_response-IsRun at f q arrivals) in
            let t = ((send written request >> await_response at f q arrivals) s).1 in
            goes (body.run s)
              (one (changes t.devices (expect at none none t).objects t.object_count));
      })

pub send_request-IsRun :
    (written : Bool) (arrivals : List Packet) (at f : ℕ) (args : List Value) (form form_ret : Form)
    → IsRun (send_request written arrivals at f args form form_ret)
unfolding send_request
send_request-IsRun written arrivals at f args form form_ret =
    bind-IsRun (build_request-IsRun at f args form) λ (built : Packet × Bool × ℕ).
      elim (Bool-cases built.1) [
        | inl expected ↦ rw expected (
            bind-IsRun (exchange-IsRun at f built.2 built.0 written arrivals)
              (λ response. lift-IsRun _))
        | inr unexpected ↦ rw unexpected (then-IsRun (send-IsRun written built.0) (pure-IsRun none))
      ]

-- A call of any method on any device object, with any arguments, and whatever arrives while it waits, is
-- a run of steps.
pub invoke-IsRun :
    (written : Bool) (arrivals : List Packet) (at : ℕ) (f : Function) (args : List Value)
    → IsRun (invoke written arrivals at f args)
unfolding invoke
invoke-IsRun written arrivals at f args = elim (Bool-cases (not (length args == f.arity))) [
  | inl wrong ↦ rw wrong (record { run = λ s. stays })
  | inr right ↦ rw right (
      bind-IsRun (send_request-IsRun written arrivals at f.function_id args f.form f.form_ret)
        (λ r. lift-IsRun _))
]
