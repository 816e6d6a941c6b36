-- ===== src/Receive/Deliver.antt =====
-- What the inner loop of receive_loop does with the bytes of several reads, and with whole packets.
use lufthansa.Base.{
  Result-cases, ℕ, zero, suc, ◌≤◌, ◌<◌, ◌≡◌, ◌≢◌, refl, sym, ◌∙◌, inl, inr, List, [], ◌∷◌, ◌++◌,
  append_assoc, ltb, Bool-cases, Bool, true, Option, none, some, length, take, drop, length-append,
  length-drop, take-append, drop-append, take-append-le, drop-append-le, arith, Result, ok, err,
  ◌>>◌, pure, skip, continue, All, subst,
}
use lufthansa.Wire.{get_length_from_data}
use lufthansa.State.{Connection, Packet, Method}
use lufthansa.Receive.{next_length, handle_response, frame, deliver}
use lufthansa.Receive.Route.{socket-handle_response, receive_flag-handle_response}
use lufthansa.Receive.Frame.{
  IsWhole, next_length-append, next_length-whole, next_length-short, frame-next, frame-raise,
  cut-next, cut-raise, frame-stopped, frame-wait, then_ok, then_err, get_length-long,
}
use lufthansa.Receive.Rounds.{
  Round, stopped, waiting, raised, handled, round, frame_total, frame_fuel,
}

-- What is left over joins the bytes that come next.
abbrev pub resume : List ℕ → Option (List ℕ) → Method (Option (List ℕ))
resume more none = pure none
resume more (some rest) = deliver (rest ++ more)

abbrev pub then_resume :
    List ℕ → Result (Option (List ℕ)) × Connection → Result (Option (List ℕ)) × Connection
then_resume more (r, s) = continue r (resume more) s

pub frame-append :
    (f g : ℕ) (a b : List ℕ) (s : Connection)
    → length a < f
    → length (a ++ b) < g
    → frame g (a ++ b) s ≡ then_resume b (frame f a s)
frame-append zero g a b s hf hg = absurd (omega arith)
frame-append (suc f) zero a b s hf hg = absurd (omega arith)
frame-append (suc f) (suc g) a b s hf hg = go (round a s) (frame-append f g)
  where
    go :
        Round a s
        → ((q b' : List ℕ) (t : Connection)
            → length q < f
            → length (q ++ b') < g
            → frame g (q ++ b') t ≡ then_resume b' (frame f q t))
        → frame (suc g) (a ++ b) s ≡ then_resume b (frame (suc f) a s)
    go (stopped off) ih =
        rw (frame-stopped f a s off) (unfold deliver in frame_fuel _ _ (a ++ b) s hg (omega arith))
    go (waiting on short) ih =
        rw (frame-wait f a s short) (unfold deliver in frame_fuel _ _ (a ++ b) s hg (omega arith))
    go (raised len e on found whole failed) ih = rw (frame-raise f a s len e on found failed) (
        cut-raise g (a ++ b) s len (take len a) (drop len a ++ b) (take-append-le len a b whole.1)
          (drop-append-le len a b whole.1) on (next_length-append a b len whole) e failed)
    go (handled len some_bytes on found whole done) ih = rw (frame-next f a s len on found done) (
        cut-next g (a ++ b) s len (take len a) (drop len a ++ b) (take-append-le len a b whole.1)
          (drop-append-le len a b whole.1) on (next_length-append a b len whole) done
        ∙ ih (drop len a) b (handle_response (take len a) s).1 (omega (arith, length-drop len a))
            (omega (arith, length-drop len a, length-append (drop len a) b, length-append a b)))

-- Bytes that come later are handled after those that are there, as if all had come at once.
pub deliver-append :
    (a b : List ℕ) (s : Connection) → deliver (a ++ b) s ≡ then_resume b (deliver a s)
deliver-append a b s = unfold deliver in frame-append _ _ a b s (omega arith) (omega arith)

-- An incomplete packet waits.
deliver-wait :
    (rest : List ℕ) (s : Connection)
    → next_length rest ≡ ok none
    → deliver rest s ≡ (ok (some rest), s)
unfolding deliver
deliver-wait rest s short = frame-wait _ rest s short

pub deliver-short :
    (rest : List ℕ) (s : Connection) → length rest < 8 → deliver rest s ≡ (ok (some rest), s)
deliver-short rest s short = deliver-wait rest s (next_length-short rest short)

-- On any bytes the loop ends: it returns what is left, or a packet in it raised.
pub deliver_total : (pending : List ℕ) (s : Connection) → (deliver pending s).0 ≢ ok none
unfolding deliver
deliver_total pending s = frame_total _ pending s (omega arith)

-- The packets of a stream, one behind the other.
abbrev pub concat : List Packet → List ℕ
concat [] = []
concat (p ∷ ps) = p ++ concat ps

-- Handled in turn, up to one that raises.
abbrev pub handle_all : List Packet → Method (Unit {0})
handle_all [] = skip
handle_all (p ∷ ps) = handle_response p >> handle_all ps

-- A packet with a whole header whose length byte is its length.
abbrev pub IsPacket : Packet → Type 0
IsPacket p = (8 ≤ length p) × (get_length_from_data p ≡ ok (length p))

-- The beginning of a packet, whether it ends in the header or behind it, is not taken for a packet.
next_length-beginning :
    (rest more : List ℕ) → more ≢ [] → IsPacket (rest ++ more) → next_length rest ≡ ok none
unfolding next_length
next_length-beginning rest [] missing good = absurd (missing refl)
next_length-beginning rest (b ∷ bs) missing (long, sized) =
    elim (Bool-cases (ltb (length rest) 8)) [
      | inl short ↦ rw short
      | inr header ↦
          let (n, known, still) = get_length-long rest (ground arith) in
          let same : n ≡ length (rest ++ (b ∷ bs)) = cc (still (b ∷ bs), sized) in
          let less : ltb (length rest) n ≡ true =
            ground (arith, same, length-append rest (b ∷ bs)) in
          rw (header, known, less)
    ]

pub deliver-beginning :
    (rest more : List ℕ) (s : Connection)
    → more ≢ []
    → IsPacket (rest ++ more)
    → deliver rest s ≡ (ok (some rest), s)
deliver-beginning rest more s missing good =
    deliver-wait rest s (next_length-beginning rest more missing good)

pub packet_IsWhole : (p : Packet) (more : List ℕ) → IsPacket p → IsWhole (p ++ more) (length p)
packet_IsWhole p more (long, sized) =
    let (n, known, still) = get_length-long p (omega arith) in
    (
      omega (arith, length-append p more),
      omega (arith, length-append p more),
      still more ∙ sym known ∙ sized,
    )

pub deliver-packet :
    (p : Packet) (more : List ℕ) (s : Connection)
    → IsPacket p
    → s.receive_flag ≡ true
    → deliver (p ++ more) s ≡ (handle_response p >> deliver more) s
deliver-packet p more s good on =
    let whole = packet_IsWhole p more good in
    let found = next_length-whole (p ++ more) (length p) whole in
    let front = take-append p more in
    let back = drop-append p more in
    elim (Result-cases (handle_response p s).0) [
      | inl (_, done) ↦
          unfold deliver in
          cut-next _ (p ++ more) s (length p) p more front back on found done
          ∙ frame_fuel _ _ more _ (omega (arith, length-append p more)) (omega arith)
          ∙ sym (then_ok (handle_response p) (frame (suc (length more)) more) s done)
      | inr (e, failed) ↦
          unfold deliver in
          cut-raise _ (p ++ more) s (length p) p more front back on found e failed
          ∙ sym (then_err (handle_response p) (frame (suc (length more)) more) s e failed)
    ]

pub continue_assoc :
    {A : Type 0} (r : Result (Unit {0})) (k : Method (Unit {0})) (n : Method A) (s : Connection)
    → let (r', t) = continue r (λ _. k) s in continue r' (λ _. n) t ≡ continue r (λ _. k >> n) s
continue_assoc (ok a) k n s = refl
continue_assoc (err e) k n s = refl

pub then_assoc :
    {A : Type 0} (m k : Method (Unit {0})) (n : Method A) (s : Connection)
    → ((m >> k) >> n) s ≡ (m >> (k >> n)) s
then_assoc m k n s = continue_assoc (m s).0 k n (m s).1

-- On a running loop, a stream of whole packets is handled packet by packet, in order, up to one that
-- raises, and what stands behind them is delivered next.
pub deliver_packets :
    (ps : List Packet) (rest : List ℕ) (s : Connection)
    → All IsPacket ps
    → s.receive_flag ≡ true
    → deliver (concat ps ++ rest) s ≡ (handle_all ps >> deliver rest) s
deliver_packets [] rest s good on = refl
deliver_packets (p ∷ ps) rest s good on = rw (append_assoc p (concat ps) rest) (
    deliver-packet p (concat ps ++ rest) s good.0 on
    ∙ go (handle_response p s).0 refl (
        deliver_packets ps rest (handle_response p s).1 good.1
          (receive_flag-handle_response p s ∙ on))
    ∙ sym (then_assoc (handle_response p) (handle_all ps) (deliver rest) s))
  where
    go :
        (r : Result (Unit {0}))
        → (handle_response p s).0 ≡ r
        → deliver (concat ps ++ rest) (handle_response p s).1
          ≡ (handle_all ps >> deliver rest) (handle_response p s).1
        → (handle_response p >> deliver (concat ps ++ rest)) s
          ≡ (handle_response p >> (handle_all ps >> deliver rest)) s
    go (err e) failed ih =
        then_err (handle_response p) (deliver (concat ps ++ rest)) s e failed
        ∙ sym (then_err (handle_response p) (handle_all ps >> deliver rest) s e failed)
    go (ok _) done ih =
        then_ok (handle_response p) (deliver (concat ps ++ rest)) s done
        ∙ ih
        ∙ sym (then_ok (handle_response p) (handle_all ps >> deliver rest) s done)

-- Where the loop leaves bytes, they wait for more, and the receive flag and the socket are what they
-- were.
abbrev pub Settled : Bool → Option ℕ → Result (Option (List ℕ)) × Connection → Type 0
Settled flag held (ok (some rest), t) =
    (deliver rest t ≡ (ok (some rest), t)) × (t.receive_flag ≡ flag) × (t.socket ≡ held)
Settled flag held _ = Unit

pub frame-Settled :
    (f : ℕ) (a : List ℕ) (s : Connection)
    → length a < f
    → Settled s.receive_flag s.socket (frame f a s)
frame-Settled zero a s enough = absurd (omega arith)
frame-Settled (suc f) a s enough = go (round a s) (frame-Settled f)
  where
    go :
        Round a s
        → ((q : List ℕ) (t : Connection)
            → length q < f
            → Settled t.receive_flag t.socket (frame f q t))
        → Settled s.receive_flag s.socket (frame (suc f) a s)
    go (stopped off) ih =
        rw (frame-stopped f a s off) (unfold deliver in frame-stopped _ a s off, refl, refl)
    go (waiting on short) ih =
        rw (frame-wait f a s short) (unfold deliver in frame-wait _ a s short, refl, refl)
    go (raised len e on found whole failed) ih = rw (frame-raise f a s len e on found failed) tt
    go (handled len some_bytes on found whole done) ih = rw (frame-next f a s len on found done) (
        subst
          (λ flag. Settled flag s.socket (frame f (drop len a) (handle_response (take len a) s).1))
          (receive_flag-handle_response (take len a) s)
          (subst
            (λ held.
              Settled (handle_response (take len a) s).1.receive_flag held
                (frame f (drop len a) (handle_response (take len a) s).1))
            (socket-handle_response (take len a) s)
            (ih (drop len a) (handle_response (take len a) s).1
              (omega (arith, length-drop len a)))))
