-- ===== src/Receive/Chunks.antt =====
-- The stream does not depend on how `recv` cuts it.
use lufthansa.Base.{
  ℕ, ◌≡◌, ◌≢◌, refl, ap, sym, ◌∙◌, List, [], ◌∷◌, ◌++◌, append_assoc, append-nil, map, true, Option,
  none, some, arith, Result, ok, err, pure, continue, All, subst,
}
use lufthansa.State.{Connection, Packet}
use lufthansa.Receive.{deliver, Event, bytes, Outcome, again, left, pending_after, receive_loop}
use lufthansa.Receive.Frame.{then_ok}
use lufthansa.Receive.Deliver.{
  then_resume, deliver-append, deliver-short, deliver-beginning, concat, handle_all, IsPacket,
  deliver_packets, Settled, frame-Settled,
}

-- A call of `recv` that brings these bytes while no other thread touches the connection.
abbrev pub quiet : List ℕ → Event
quiet c = record { meanwhile = λ s. s; received = bytes c }

abbrev pub outcome_of : Result (Option (List ℕ)) × Connection → Result Outcome × Connection
outcome_of (r, s) = continue r (λ rest. pure (pending_after rest)) s

module _ (socket_id handle : ℕ) (cs : List (List ℕ)) (more : List ℕ) where
  abbrev Resumes : Type 0
  Resumes =
      (rest : List ℕ) (t : Connection)
      → t.receive_flag ≡ true
      → t.socket ≡ some handle
      → deliver rest t ≡ (ok (some rest), t)
      → receive_loop socket_id rest (map quiet cs) t ≡ outcome_of (deliver (rest ++ more) t)

  after_chunk :
      (x : Result (Option (List ℕ)) × Connection)
      → Settled true (some handle) x
      → Resumes
      → (let (o, t) = outcome_of x in
          continue o
            (λ outcome. elim outcome [
              | left ↦ pure left
              | again rest ↦ receive_loop socket_id rest (map quiet cs)
            ])
            t)
        ≡ outcome_of (then_resume more x)
  after_chunk (err e, t) calm ih = refl
  after_chunk (ok none, t) calm ih = refl
  after_chunk (ok (some rest), t) calm ih = ih rest t calm.1 calm.2 calm.0

receive_loop-quiet :
    (socket_id handle : ℕ) (chunks : List (List ℕ)) (pending : List ℕ) (s : Connection)
    → All (λ c. c ≢ []) chunks
    → s.receive_flag ≡ true
    → s.socket ≡ some handle
    → deliver pending s ≡ (ok (some pending), s)
    → receive_loop socket_id pending (map quiet chunks) s
      ≡ outcome_of (deliver (pending ++ concat chunks) s)
unfolding receive_loop
receive_loop-quiet socket_id handle [] pending s full on held calm = rw (append-nil, calm)
receive_loop-quiet socket_id handle ([] ∷ cs) pending s full on held calm = absurd (full.0 refl)
receive_loop-quiet socket_id handle ((b ∷ c) ∷ cs) pending s full on held calm =
    simp (on, held)
      (after_chunk socket_id handle cs (concat cs) (deliver (pending ++ (b ∷ c)) s)
          (subst (λ flag. Settled flag (some handle) (deliver (pending ++ (b ∷ c)) s)) on
            (subst (λ h. Settled s.receive_flag h (deliver (pending ++ (b ∷ c)) s)) held
              (unfold deliver in frame-Settled _ (pending ++ (b ∷ c)) s (omega arith))))
          (λ rest t running open_still still.
            receive_loop-quiet socket_id handle cs rest t full.1 running open_still still)
        ∙ ap outcome_of (
            sym (deliver-append (pending ++ (b ∷ c)) (concat cs) s)
            ∙ rw (append_assoc pending (b ∷ c) (concat cs))))

-- However `recv` cuts the bytes that a running, open connection gets, as long as no other thread touches
-- it, the receive loop does what it does when all of them come in one piece: the outcome, what is
-- pending, an exception and the whole state are the same.
pub receive_loop_chunks :
    (socket_id handle : ℕ) (chunks : List (List ℕ)) (s : Connection)
    → All (λ c. c ≢ []) chunks
    → s.receive_flag ≡ true
    → s.socket ≡ some handle
    → receive_loop socket_id [] (map quiet chunks) s ≡ outcome_of (deliver (concat chunks) s)
receive_loop_chunks socket_id handle chunks s full on held =
    receive_loop-quiet socket_id handle chunks [] s full on held (deliver-short [] s (omega arith))

-- On a running, open connection that no other thread touches, whole packets followed by the beginning
-- of another one, which may end in its header or behind it, cut into non-empty chunks anywhere: if
-- handling the packets raises nothing, each is handled once and in order, and exactly the beginning of
-- the next one is kept.
pub receive_loop_packets :
    (socket_id handle : ℕ) (chunks : List (List ℕ)) (ps : List Packet) (rest more : List ℕ)
    (s : Connection)
    → All (λ c. c ≢ []) chunks
    → All IsPacket ps
    → concat chunks ≡ concat ps ++ rest
    → more ≢ []
    → IsPacket (rest ++ more)
    → s.receive_flag ≡ true
    → s.socket ≡ some handle
    → (handle_all ps s).0 ≡ ok tt
    → receive_loop socket_id [] (map quiet chunks) s ≡ (ok (again rest), (handle_all ps s).1)
receive_loop_packets socket_id handle chunks ps rest more s full good same missing next on held
      handled_all =
    receive_loop_chunks socket_id handle chunks s full on held
    ∙ rw same (
        ap outcome_of (
          deliver_packets ps rest s good on
          ∙ then_ok (handle_all ps) (deliver rest) s handled_all
          ∙ deliver-beginning rest more (handle_all ps s).1 missing next))
