-- ===== src/Receive/Rounds.antt =====
-- Cutting the stream: the loop ends with the fuel it is given, and more fuel changes nothing.
use lufthansa.Base.{
  Result-cases, ℕ, zero, suc, ◌<◌, ◌≡◌, ◌≢◌, sym, ◌∙◌, inl, inr, List, true, false, Bool-cases,
  none, some, length, take, drop, length-drop, arith, ok, err, Exception,
}
use lufthansa.State.{Connection}
use lufthansa.Receive.{handle_response, next_length, frame}
use lufthansa.Receive.Frame.{
  IsWhole, next_length-cases, frame-stopped, frame-wait, handled-pos, frame-next, frame-raise,
}

-- What one round does: it leaves the bytes as they are, it raises, or it handles a packet and goes
-- on with fewer bytes. Each case holds with whatever fuel and with whatever bytes to come.
pub data Round (pending : List ℕ) (s : Connection) : Type 0 where
  stopped : s.receive_flag ≡ false → Round pending s
  waiting : s.receive_flag ≡ true → next_length pending ≡ ok none → Round pending s
  raised :
      (len : ℕ) (e : Exception)
      → s.receive_flag ≡ true
      → next_length pending ≡ ok (some len)
      → IsWhole pending len
      → (handle_response (take len pending) s).0 ≡ err e
      → Round pending s
  handled :
      (len : ℕ)
      → 0 < len
      → s.receive_flag ≡ true
      → next_length pending ≡ ok (some len)
      → IsWhole pending len
      → (handle_response (take len pending) s).0 ≡ ok tt
      → Round pending s

pub round : (pending : List ℕ) (s : Connection) → Round pending s
round pending s = elim (Bool-cases s.receive_flag) [
  | inr off ↦ stopped off
  | inl on ↦ elim (next_length-cases pending) [
    | inl short ↦ waiting on short
    | inr (len, found, whole) ↦ elim (Result-cases (handle_response (take len pending) s).0) [
      | inl (tt, done) ↦ handled len (handled-pos pending len s done) on found whole done
      | inr (e, failed) ↦ raised len e on found whole failed
    ]
  ]
]

-- The loop ends: with more fuel than bytes it never runs out of fuel.
pub frame_total :
    (fuel : ℕ) (pending : List ℕ) (s : Connection)
    → length pending < fuel
    → (frame fuel pending s).0 ≢ ok none
frame_total zero pending s enough = absurd (omega arith)
frame_total (suc fuel) pending s enough = go (round pending s) (frame_total fuel)
  where
    go :
        Round pending s
        → ((q : List ℕ) (t : Connection) → length q < fuel → (frame fuel q t).0 ≢ ok none)
        → (frame (suc fuel) pending s).0 ≢ ok none
    go (stopped off) ih = rw (frame-stopped fuel pending s off) (λ e. cc)
    go (waiting on short) ih = rw (frame-wait fuel pending s short) (λ e. cc)
    go (raised len e on found whole failed) ih =
        rw (frame-raise fuel pending s len e on found failed) (λ q. cc)
    go (handled len some_bytes on found whole done) ih =
        rw (frame-next fuel pending s len on found done)
          (ih (drop len pending) _ (omega (arith, length-drop len pending)))

-- More fuel changes nothing.
pub frame_fuel :
    (f g : ℕ) (pending : List ℕ) (s : Connection)
    → length pending < f
    → length pending < g
    → frame f pending s ≡ frame g pending s
frame_fuel zero g pending s hf hg = absurd (omega arith)
frame_fuel (suc f) zero pending s hf hg = absurd (omega arith)
frame_fuel (suc f) (suc g) pending s hf hg = go (round pending s) (frame_fuel f g)
  where
    go :
        Round pending s
        → ((q : List ℕ) (t : Connection) → length q < f → length q < g → frame f q t ≡ frame g q t)
        → frame (suc f) pending s ≡ frame (suc g) pending s
    go (stopped off) ih = frame-stopped f pending s off ∙ sym (frame-stopped g pending s off)
    go (waiting on short) ih = frame-wait f pending s short ∙ sym (frame-wait g pending s short)
    go (raised len e on found whole failed) ih =
        frame-raise f pending s len e on found failed
        ∙ sym (frame-raise g pending s len e on found failed)
    go (handled len some_bytes on found whole done) ih =
        frame-next f pending s len on found done
        ∙ ih (drop len pending) _ (omega (arith, length-drop len pending))
            (omega (arith, length-drop len pending))
        ∙ sym (frame-next g pending s len on found done)
