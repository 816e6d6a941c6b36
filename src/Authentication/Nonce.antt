-- ===== src/Authentication/Nonce.antt =====
-- The nonces of authenticate.
use lufthansa.Base.{ℕ, ◌≡◌, List, [], ◌∷◌, Bool, true, false, some, Result-cases, inl, inr, arith}
use lufthansa.Format.{many, u8, Form, Value}
use lufthansa.State.{Connection, Packet, World}
use lufthansa.Lifecycle.{send}
use lufthansa.Receive.{handle_response}
use lufthansa.Request.{
  expect, build_request, await_response, last_poll, poll, exchange, send_request,
}
use lufthansa.Authentication.{asks}

abbrev pub SameNonce : Connection → Connection → Type 0
SameNonce s t = t.next_authentication_nonce ≡ s.next_authentication_nonce

send-SameNonce : (written : Bool) (p : Packet) (s : Connection) → SameNonce s (send written p s).1
unfolding send
send-SameNonce written p s = ground arith

handle_response-SameNonce : (p : Packet) (s : Connection) → SameNonce s (handle_response p s).1
unfolding handle_response
handle_response-SameNonce p s = ground arith

poll-SameNonce : (at f q : ℕ) (s : Connection) → SameNonce s (poll at f q s).1
unfolding poll
poll-SameNonce at f q s = ground arith

last_poll-SameNonce : (at f q : ℕ) (s : Connection) → SameNonce s (last_poll at f q s).1
unfolding last_poll
last_poll-SameNonce at f q s = ground (arith, poll-SameNonce at f q s)

await_response-SameNonce :
    (at f q : ℕ) (arrivals : List Packet) (s : Connection)
    → SameNonce s (await_response at f q arrivals s).1
unfolding await_response
await_response-SameNonce at f q [] s = last_poll-SameNonce at f q s
await_response-SameNonce at f q (p ∷ ps) s = ground (
  arith,
  poll-SameNonce at f q s,
  handle_response-SameNonce p (poll at f q s).1,
  await_response-SameNonce at f q ps (handle_response p (poll at f q s).1).1,
  last_poll-SameNonce at f q (handle_response p (poll at f q s).1).1,
)

exchange-SameNonce :
    (at f q : ℕ) (request : Packet) (written : Bool) (arrivals : List Packet) (s : Connection)
    → SameNonce s (exchange at f q request written arrivals s).1
unfolding exchange
exchange-SameNonce at f q request written arrivals s =
    let t = expect at (some f) (some q) s in
    ground (
      arith,
      send-SameNonce written request t,
      await_response-SameNonce at f q arrivals (send written request t).1,
    )

build_request-SameNonce :
    (at f : ℕ) (args : List Value) (form : Form) (s : Connection)
    → SameNonce s (build_request at f args form s).1
unfolding build_request
build_request-SameNonce at f args form s = ground arith

send_request-SameNonce :
    (written : Bool) (arrivals : List Packet) (at f : ℕ) (args : List Value) (form form_ret : Form)
    (s : Connection)
    → SameNonce s (send_request written arrivals at f args form form_ret s).1
unfolding send_request
send_request-SameNonce written arrivals at f args form form_ret s =
    let t = (build_request at f args form s).1 in
    let same = build_request-SameNonce at f args form s in
    elim (Result-cases (build_request at f args form s).0) [
      | inl ((request, true, q), e) ↦
          rw e (ground (arith, same, exchange-SameNonce at f q request written arrivals t))
      | inl ((request, false, q), e) ↦ rw e (ground (arith, same, send-SameNonce written request t))
      | inr (x, e) ↦ rw e same
    ]

pub asks-SameNonce : (world : World) (at : ℕ) (s : Connection) → SameNonce s (asks world at s).1
unfolding asks
asks-SameNonce world at s =
    send_request-SameNonce (world s).0 (world s).1 at 1 [] [] (many 4 u8 ∷ []) s
