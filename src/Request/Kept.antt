-- ===== src/Request/Kept.antt =====
-- What a request leaves alone, and what it sends.
use lufthansa.Base.{
  ℕ, ◌≡◌, ◌≢◌, ◌∙◌, refl, List, [], ◌∷◌, Bool, true, false, none, some, Option, ok, err, Result,
  Result-cases, inl, inr, arith, ap,
}
use lufthansa.Format.{Form, Value}
use lufthansa.State.{Connection, Packet, sent}
use lufthansa.Wire.Header.{Reads}
use lufthansa.Lifecycle.Send.{send_written}
use lufthansa.Receive.{handle_response}
use lufthansa.Request.{
  poll, last_poll, await_response, expect, exchange, build_request, send_request, search_queue,
  exhausted, read_response,
}
use lufthansa.Request.Await.{await_response_returns}

-- The socket, the effects, the counters, and the uid and the flags of a device object.
abbrev pub Kept : ℕ → Connection → Connection → Type 0
Kept at s t =
    (t.socket ≡ s.socket)
    × (t.effects ≡ s.effects)
    × (t.next_sequence_number ≡ s.next_sequence_number)
    × (t.next_authentication_nonce ≡ s.next_authentication_nonce)
    × ((t.objects at).uid ≡ (s.objects at).uid)
    × ((t.objects at).response_expected ≡ (s.objects at).response_expected)

Kept-trans : (at : ℕ) (s t u : Connection) → Kept at s t → Kept at t u → Kept at s u
Kept-trans at s t u (a, b, c, d, e, f) (a', b', c', d', e', f') =
    (a' ∙ a, b' ∙ b, c' ∙ c, d' ∙ d, e' ∙ e, f' ∙ f)

handle_response-Kept : (at : ℕ) (p : Packet) (s : Connection) → Kept at s (handle_response p s).1
unfolding handle_response
handle_response-Kept at p s = ground arith

poll-Kept : (at f q : ℕ) (s : Connection) → Kept at s (poll at f q s).1
unfolding poll
poll-Kept at f q s = ground arith

last_poll-Kept : (at f q : ℕ) (s : Connection) → Kept at s (last_poll at f q s).1
unfolding last_poll
last_poll-Kept at f q s = ground (arith, poll-Kept at f q s)

expect-Kept : (at : ℕ) (f q : Option ℕ) (s : Connection) → Kept at s (expect at f q s)
expect-Kept at f q s = ground arith

-- After the receive thread has handled a packet.
handled :
    (at f q : ℕ) (ps : List Packet) (s : Connection) (r : Result (Unit {0})) (u : Connection)
    → Kept at u (await_response at f q ps u).1
    → Kept at s u
    → (let next : Result Packet × Connection = elim r [
      | ok _ ↦ await_response at f q ps u
      | err _ ↦ last_poll at f q u
    ] in
        Kept at s next.1)
handled at f q ps s (ok a) u more heard =
    Kept-trans at s u (await_response at f q ps u).1 heard more
handled at f q ps s (err x) u more heard =
    Kept-trans at s u (last_poll at f q u).1 heard (last_poll-Kept at f q u)

await_response-Kept :
    (at f q : ℕ) (arrivals : List Packet) (s : Connection)
    → Kept at s (await_response at f q arrivals s).1
unfolding await_response
await_response-Kept at f q [] s = last_poll-Kept at f q s
await_response-Kept at f q (p ∷ ps) s =
    let t = (poll at f q s).1 in
    let u = (handle_response p t).1 in
    let polled = poll-Kept at f q s in
    let heard = Kept-trans at s t u polled (handle_response-Kept at p t) in
    elim (Result-cases (poll at f q s).0) [
      | inl (some r, e) ↦ rw e polled
      | inl (none, e) ↦
          rw e
            (handled at f q ps s (handle_response p t).0 u (await_response-Kept at f q ps u) heard)
      | inr (x, e) ↦ rw e polled
    ]

-- One packet has been sent, and nothing else has changed of these parts of the state.
abbrev pub Sent : ℕ → Packet → Connection → Connection → Type 0
Sent at p s t =
    (t.socket ≡ s.socket)
    × (t.effects ≡ sent p ∷ s.effects)
    × (t.next_sequence_number ≡ s.next_sequence_number)
    × (t.next_authentication_nonce ≡ s.next_authentication_nonce)
    × ((t.objects at).uid ≡ (s.objects at).uid)
    × ((t.objects at).response_expected ≡ (s.objects at).response_expected)

-- The state in which a request waits for its response.
abbrev pub waiting : ℕ → ℕ → ℕ → Packet → Connection → Connection
waiting at f q p s =
    let t = expect at (some f) (some q) s in
    record t { effects = sent p ∷ t.effects; disconnect_probe_flag = false }

exchange_lem :
    (at f q handle : ℕ) (p : Packet) (arrivals : List Packet) (s : Connection)
    → s.socket ≡ some handle
    → exchange at f q p true arrivals s ≡ (
        let (r, t) = await_response at f q arrivals (waiting at f q p s) in
        (r, expect at none none t))
unfolding exchange
exchange_lem at f q handle p arrivals s held =
    rw (send_written p handle (expect at (some f) (some q) s) held) refl

exchange-Sent :
    (at f q handle : ℕ) (p : Packet) (arrivals : List Packet) (s : Connection)
    → s.socket ≡ some handle
    → Sent at p s (exchange at f q p true arrivals s).1
exchange-Sent at f q handle p arrivals s held =
    let u = waiting at f q p s in
    let kept = await_response-Kept at f q arrivals u in
    let ended = expect-Kept at none none (await_response at f q arrivals u).1 in
    let begun = expect-Kept at (some f) (some q) s in
    rw (exchange_lem at f q handle p arrivals s held) (ground (arith, kept, ended, begun))

module _ (at f handle : ℕ) (args : List Value) (form form_ret : Form) (p : Packet) (q : ℕ)
    (arrivals : List Packet) (s t : Connection) (held : t.socket ≡ some handle) where
  -- A request that has been built is sent, whatever comes of it.
  pub send_request-Sent :
      (expected : Bool)
      → build_request at f args form s ≡ (ok (p, expected, q), t)
      → Sent at p t (send_request true arrivals at f args form form_ret s).1
  unfolding send_request
  send_request-Sent true built =
      let sent_now = exchange-Sent at f q handle p arrivals t held in
      rw built (elim (Result-cases (exchange at f q p true arrivals t).0) [
        | inl (r, e) ↦ rw e sent_now
        | inr (x, e) ↦ rw e sent_now
      ])
  send_request-Sent false built =
      rw (built, send_written p handle t held) (refl, refl, refl, refl, refl, refl)

  -- The first packet that arrives is its response.
  pub send_request_answered :
      (uid len error_code : ℕ) (response : Packet)
      → build_request at f args form s ≡ (ok (p, true, q), t)
      → q ≢ 0
      → t.devices uid ≡ some at
      → Reads response uid len f q error_code
      → search_queue f q (t.objects at).response_queue ≡ exhausted
      → (send_request true (response ∷ arrivals) at f args form form_ret s).0
        ≡ read_response response form_ret
  unfolding send_request
  send_request_answered uid len error_code response built numbered known reads stale =
      let u = waiting at f q p t in
      let answer : (await_response at f q (response ∷ arrivals) u).0 ≡ ok response =
        await_response_returns at uid len f q error_code response arrivals u reads numbered known
          (ground arith) (ground (arith, stale)) in
      let exchanged : (exchange at f q p true (response ∷ arrivals) t).0 ≡ ok response =
        ap (λ (x : Result Packet × Connection). x.0)
          (exchange_lem at f q handle p (response ∷ arrivals) t held)
        ∙ answer in
      rw (built, exchanged) refl
