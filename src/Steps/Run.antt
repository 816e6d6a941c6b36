-- ===== src/Steps/Run.antt =====
-- Methods that are runs of steps, and how they are put together.
use lufthansa.Base.{
  Exception, List, [], ◌∷◌, Bool, true, false, Result, Result-cases, inl, inr, gets, lift, pure,
  raise, when, ◌>>=◌, ◌>>◌,
}
use lufthansa.State.{Connection, Method, Effect, emit}
use lufthansa.Steps.{Event, Step, Reach, here, later, acts}

-- Some run leads from a state to another one.
abbrev pub Comes : Connection → Connection → Type 0
Comes s t = (es : List Event) × Reach s es t

pub stays : {s : Connection} → Comes s s
stays = ([], here)

pub one : {s t : Connection} {e : Event} → Step s e t → Comes s t
one {e} step = (e ∷ [], later here step)

Reach-append : {s t u : Connection} {es fs : List Event} → Reach s es t → Reach t fs u → Comes s u
Reach-append {es} r here = (es, r)
Reach-append {fs = f ∷ fs} r (later q step) =
    let (es, run) = Reach-append r q in (f ∷ es, later run step)

pub goes : {s t u : Connection} → Comes s t → Comes t u → Comes s u
goes p q = Reach-append p.1 q.1

-- From every state the method leads to the state after a run of steps, whether it returns or raises.
pub record IsRun {A : Type 0} (m : Method A) : Type 0 where
  pub run : (s : Connection) → Comes s (m s).1

module _ {A B : Type 0} {m : Method A} {k : A → Method B} where
  pub bind-IsRun : IsRun m → ((a : A) → IsRun (k a)) → IsRun (m >>= k)
  bind-IsRun first second = record {
    run = λ s. elim (Result-cases (m s).0) [
      | inl (a, e) ↦ rw e (goes (first.run s) ((second a).run (m s).1))
      | inr (x, e) ↦ rw e (first.run s)
    ];
  }

module _ {A B : Type 0} {m : Method A} {k : Method B} where
  pub then-IsRun : IsRun m → IsRun k → IsRun (m >> k)
  then-IsRun first second = record {
    run = λ s. elim (Result-cases (m s).0) [
      | inl (a, e) ↦ rw e (goes (first.run s) (second.run (m s).1))
      | inr (x, e) ↦ rw e (first.run s)
    ];
  }

module _ {m : Method (Unit {0})} where
  pub when-IsRun : (b : Bool) → IsRun m → IsRun (when b m)
  when-IsRun true still = record { run = λ s. still.run s }
  when-IsRun false still = record { run = λ s. stays }

pub emit-IsRun : (e : Effect) → IsRun (emit e)
emit-IsRun e = record { run = λ s. one (acts e) }

module _ {A : Type 0} where
  pub lift-IsRun : (r : Result A) → IsRun {A = A} (lift r)
  lift-IsRun r = record { run = λ s. stays }

  pub pure-IsRun : (a : A) → IsRun {A = A} (pure a)
  pure-IsRun a = record { run = λ s. stays }

  pub raise-IsRun : (e : Exception) → IsRun {A = A} (raise e)
  raise-IsRun e = record { run = λ s. stays }

  pub gets-IsRun : (f : Connection → A) → IsRun (gets f)
  gets-IsRun f = record { run = λ s. stays }
