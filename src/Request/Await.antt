-- ===== src/Request/Await.antt =====
-- Waiting for the response of a request.
use lufthansa.Base.{
  Result-cases, ℕ, ◌≡◌, ◌≢◌, refl, ap, List, [], ◌∷◌, Bool, true, false, modify, continue, raise,
  pure, ◌>>◌, Option, none, some, arith, Result, ok, err, ip_error, timeout, inl, inr,
}
use lufthansa.Wire.{get_function_id_from_data, get_sequence_number_from_data}
use lufthansa.State.{Connection, Packet, Method}
use lufthansa.Receive.{handle_response, awaits, put_response}
use lufthansa.Receive.Route.{response_queued, heard}
use lufthansa.Wire.Header.{Reads}
use lufthansa.Request.{
  is_answer, Search, answered, exhausted, unreadable, judge, search_queue, set_queue, poll,
  last_poll, await_response, exchange,
}

-- A packet that carries the function id and the sequence number of the request.
abbrev pub IsAnswer : ℕ → ℕ → Packet → Type 0
IsAnswer function_id sequence_number p =
    (get_function_id_from_data p ≡ ok function_id)
    × (get_sequence_number_from_data p ≡ ok sequence_number)

-- What a search finds.
abbrev Finds : ℕ → ℕ → Search → Type 0
Finds f q (answered p rest) = IsAnswer f q p
Finds f q _ = Unit

is_answer-IsAnswer : (f q : ℕ) (p : Packet) → is_answer f q p ≡ ok true → IsAnswer f q p
is_answer-IsAnswer f q p e = ground arith

search_queue-Finds : (f q : ℕ) (ps : List Packet) → Finds f q (search_queue f q ps)
unfolding search_queue
search_queue-Finds f q [] = tt
search_queue-Finds f q (p ∷ ps) = go (is_answer f q p) refl (search_queue-Finds f q ps)
  where
    go :
        (r : Result Bool)
        → is_answer f q p ≡ r
        → Finds f q (search_queue f q ps)
        → Finds f q (judge r p ps (search_queue f q ps))
    go (ok true) e ih = is_answer-IsAnswer f q p e
    go (ok false) e ih = ih
    go (err x) e ih = tt

abbrev Polled : ℕ → ℕ → Result (Option Packet) × Connection → Type 0
Polled f q (ok (some p), s) = IsAnswer f q p
Polled f q _ = Unit

-- What a wait returns, if it returns.
abbrev pub Answers : ℕ → ℕ → Result Packet × Connection → Type 0
Answers f q (ok p, s) = IsAnswer f q p
Answers f q (err e, s) = Unit

poll-Polled : (at f q : ℕ) (s : Connection) → Polled f q (poll at f q s)
unfolding poll
poll-Polled at f q s =
    go (search_queue f q (s.objects at).response_queue)
      (search_queue-Finds f q (s.objects at).response_queue)
  where
    go :
        (found : Search)
        → Finds f q found
        → (let taken : Method (Option Packet) = elim found [
          | answered p rest ↦ modify (set_queue at rest) >> pure (some p)
          | exhausted ↦ modify (set_queue at []) >> pure none
          | unreadable e rest ↦ modify (set_queue at rest) >> raise e
        ] in
            Polled f q (taken s))
    go (answered p rest) found = found
    go exhausted found = tt
    go (unreadable e rest) found = tt

module _ (f q : ℕ) (k : Method Packet) where
  after_poll :
      (x : Result (Option Packet) × Connection)
      → Polled f q x
      → ((s : Connection) → Answers f q (k s))
      → (let (r, s) = x in
          Answers f q (continue r (λ found. elim found [ some p ↦ pure p | none ↦ k ]) s))
  after_poll (ok (some p), s) polled rest = polled
  after_poll (ok none, s) polled rest = rest s
  after_poll (err e, s) polled rest = tt

last_poll-Answers : (at f q : ℕ) (s : Connection) → Answers f q (last_poll at f q s)
unfolding last_poll
last_poll-Answers at f q s =
    after_poll f q (raise (ip_error timeout)) (poll at f q s) (poll-Polled at f q s) (λ t. tt)

-- Whatever stale responses are queued and whatever arrives, a response that the wait returns carries
-- the function id and the sequence number of the request.
pub await_response-Answers :
    (at f q : ℕ) (arrivals : List Packet) (s : Connection)
    → Answers f q (await_response at f q arrivals s)
unfolding await_response
await_response-Answers at f q [] s = last_poll-Answers at f q s
await_response-Answers at f q (p ∷ ps) s =
    after_poll f q _ (poll at f q s) (poll-Polled at f q s) (λ t.
      elim (Result-cases (handle_response p t).0) [
        | inl (_, e) ↦ rw e (await_response-Answers at f q ps (handle_response p t).1)
        | inr (_, e) ↦ rw e (last_poll-Answers at f q (handle_response p t).1)
      ])

module _ (at f q : ℕ) (s : Connection) where
  poll-exhausted :
      search_queue f q (s.objects at).response_queue ≡ exhausted
      → poll at f q s ≡ (ok none, set_queue at [] s)
  unfolding poll
  poll-exhausted e = rw e

  poll-answered :
      (p : Packet) (rest : List Packet)
      → search_queue f q (s.objects at).response_queue ≡ answered p rest
      → poll at f q s ≡ (ok (some p), set_queue at rest s)
  unfolding poll
  poll-answered p rest e = rw e

-- With an answer in the queue the wait returns it, whatever arrives later.
await_response-answered :
    (at f q : ℕ) (arrivals : List Packet) (p : Packet) (rest : List Packet) (s : Connection)
    → search_queue f q (s.objects at).response_queue ≡ answered p rest
    → (await_response at f q arrivals s).0 ≡ ok p
unfolding await_response last_poll
await_response-answered at f q [] p rest s e = rw (poll-answered at f q s p rest e)
await_response-answered at f q (r ∷ rs) p rest s e = rw (poll-answered at f q s p rest e)

await_step :
    (at f q : ℕ) (p : Packet) (ps : List Packet) (s t u : Connection)
    → poll at f q s ≡ (ok none, t)
    → handle_response p t ≡ (ok tt, u)
    → await_response at f q (p ∷ ps) s ≡ await_response at f q ps u
unfolding await_response
await_step at f q p ps s t u polled handled =
    rw (polled, continue, handled)
      (ap (λ (x : Result (Unit {0}) × Connection). await_response at f q ps x.1) handled)

queued :
    (f q : ℕ) (p : Packet) (rest queue : List Packet)
    → IsAnswer f q p
    → queue ≡ p ∷ rest
    → search_queue f q queue ≡ answered p rest
unfolding search_queue
queued f q p rest queue answer same = rw same (ground arith)

-- A response that arrives for a waiting device is the one that the wait returns, whatever stale
-- responses are still in the queue.
pub await_response_returns :
    (at uid len f q error_code : ℕ) (p : Packet) (later : List Packet) (s : Connection)
    → Reads p uid len f q error_code
    → q ≢ 0
    → s.devices uid ≡ some at
    → awaits (s.objects at) f q ≡ true
    → search_queue f q (s.objects at).response_queue ≡ exhausted
    → (await_response at f q (p ∷ later) s).0 ≡ ok p
await_response_returns at uid len f q error_code p later s reads response known waiting stale =
    let s' = set_queue at [] s in
    let same : awaits (s'.objects at) f q ≡ true = ground arith in
    let routed : handle_response p s' ≡ (ok tt, put_response at p (heard s')) =
      response_queued p uid len f q error_code s' reads at response known same in
    rw
      (await_step at f q p later s s' (put_response at p (heard s')) (poll-exhausted at f q s stale)
        routed)
      (await_response-answered at f q later p [] (put_response at p (heard s'))
        (queued f q p [] _ (reads.reads_function_id, reads.reads_sequence_number) (ground arith)))

-- Once a request has ended, in whatever way, its device waits for no response any more.
pub exchange_resets :
    (at f q : ℕ) (request : Packet) (written : Bool) (arrivals : List Packet) (s : Connection)
    → let d = (exchange at f q request written arrivals s).1.objects at in
      (d.expected_response_function_id ≡ none) × (d.expected_response_sequence_number ≡ none)
unfolding exchange
exchange_resets at f q request written arrivals s = ground arith
