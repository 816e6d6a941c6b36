-- ===== src/Steps/Reconnect.antt =====
-- The reconnect loop of the callback thread, as a run of steps.
use lufthansa.Base.{
  ◌≡◌, List, [], ◌∷◌, true, false, ◌&&◌, is_none, ok, err, Result-cases, inl, inr, Bool-cases, All,
  arith, sym, subst, Exception,
}
use lufthansa.State.{Connection, Thread}
use lufthansa.Lifecycle.{connect_unlocked}
use lufthansa.Dispatch.{Try, reconnect}
use lufthansa.Steps.{retries, one_try}
use lufthansa.Steps.Run.{Comes, one, goes, IsRun, pure-IsRun}
use lufthansa.Steps.Loops.{IsFair}

-- A round of the reconnect loop whose receive thread starts and whose wait is a run.
abbrev pub IsFairTry : Try → Type 0
IsFairTry t = (t.attempt.receiver_starts ≡ true) × IsFair t.meanwhile

module _ (self : Thread) (t : Try) (ts : List Try) (s : Connection) where
  abbrev before : Connection
  before = t.meanwhile s

  abbrev after : Connection
  after = (reconnect self (one_try t.attempt) before).1

  last_round :
      before.auto_reconnect_allowed && is_none before.socket ≡ false
      → (reconnect self (t ∷ ts) s).1 ≡ after
  unfolding reconnect
  last_round stopped = ground arith

  round_connected :
      (connect_unlocked self t.attempt true before).0 ≡ ok tt
      → before.auto_reconnect_allowed && is_none before.socket ≡ true
      → (reconnect self (t ∷ ts) s).1 ≡ after
  unfolding reconnect
  round_connected through open_again = ground arith

  round_failed :
      (x : Exception)
      → (connect_unlocked self t.attempt true before).0 ≡ err x
      → before.auto_reconnect_allowed && is_none before.socket ≡ true
      → (reconnect self (t ∷ ts) s).1 ≡ (reconnect self ts after).1
  unfolding reconnect
  round_failed x failed open_again = ground arith

pub reconnect-IsRun :
    (self : Thread) (tries : List Try) → All IsFairTry tries → IsRun (reconnect self tries)
reconnect-IsRun self [] fair = unfold reconnect in pure-IsRun true
reconnect-IsRun self (t ∷ ts) fair = record {
  run = λ s.
      let u = t.meanwhile s in
      let tried = goes (fair.0.1 s) (one (retries self t.attempt fair.0.0)) in
      elim (Bool-cases (u.auto_reconnect_allowed && is_none u.socket)) [
        | inr stopped ↦ subst (Comes s) (sym (last_round self t ts s stopped)) tried
        | inl open_again ↦ elim (Result-cases (connect_unlocked self t.attempt true u).0) [
          | inl (a, through) ↦
              subst (Comes s) (sym (round_connected self t ts s through open_again)) tried
          | inr (x, failed) ↦
              subst (Comes s) (sym (round_failed self t ts s x failed open_again))
                (goes tried ((reconnect-IsRun self ts fair.1).run _))
        ]
      ];
}
