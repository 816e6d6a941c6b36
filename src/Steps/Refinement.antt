-- ===== src/Steps/Refinement.antt =====
-- The threads, sockets and queues of a connection carry out the specification of its link.
use lufthansa.Base.{◌≡◌, refl, List, [], ◌∷◌, false, All, none, is_none, not, ◌&&◌, arith, ◌∙◌, ap}
use lufthansa.State.{Connection, Thread}
use lufthansa.Lifecycle.{disconnect, get_connection_state}
use lufthansa.Lifecycle.Consistent.{IsConsistent}
use lufthansa.Steps.{
  Event, Step, connecting, sending, dropping, retrying, probing, setting, disconnecting, losing,
  wanting, other, Reach, here, later, disconnects,
}
use lufthansa.Steps.Link.{Link, link, next_link, told, get_connection_state-told}
use lufthansa.Steps.Invariant.{Step-Fulfils, Reach-IsConsistent}

-- The events of a run, the last one first, carried out on the specification.
abbrev pub after_events : List Event → Link → Link
after_events [] l = l
after_events (e ∷ es) l = next_link e (after_events es l)

-- Whatever steps the threads make, in whatever order, from a connection in good order, as long as
-- every receive thread can be started and no open connection is disconnected by the user while a
-- reconnect is pending: what is open, allowed, pending and wanted is what the specification makes of
-- the events, and `get_connection_state` tells it.
pub Reach-link :
    {s : Connection} {es : List Event} {t : Connection}
    → IsConsistent s
    → Reach s es t
    → (link t ≡ after_events es (link s))
      × (get_connection_state t ≡ told (after_events es (link s)))
Reach-link {t} inv here = (refl, get_connection_state-told t)
Reach-link {s} {es = e ∷ es} {t} inv (later r step) =
    let (before, _) = Reach-link inv r in
    let same = (Step-Fulfils step (Reach-IsConsistent inv r)).1 ∙ ap (next_link e) before in
    (same, get_connection_state-told t ∙ ap told same)

-- No loss of the connection, and no call of connect.
abbrev pub IsQuiet : Event → Type 0
IsQuiet (connecting through) = ⊥
IsQuiet losing = ⊥
IsQuiet (probing failed) = failed ≡ false
IsQuiet _ = Unit

abbrev Shut : Link → Type 0
Shut l = (l.is_open ≡ false) × (l.allowed ≡ false)

next_link-Shut : (e : Event) (l : Link) → IsQuiet e → Shut l → Shut (next_link e l)
next_link-Shut (connecting through) l quiet shut = absurd quiet
next_link-Shut (sending written) l quiet shut = ground arith
next_link-Shut (dropping current) l quiet shut = ground arith
next_link-Shut (retrying through) l quiet shut = ground arith
next_link-Shut (probing failed) l quiet shut = ground arith
next_link-Shut (setting wanted) l quiet shut = ground arith
next_link-Shut disconnecting l quiet shut = ground arith
next_link-Shut losing l quiet shut = absurd quiet
next_link-Shut wanting l quiet shut = ground arith
next_link-Shut other l quiet shut = ground arith

after_events-Shut :
    (es : List Event) (l : Link) → All IsQuiet es → Shut l → Shut (after_events es l)
after_events-Shut [] l quiet shut = shut
after_events-Shut (e ∷ es) l quiet shut =
    next_link-Shut e (after_events es l) quiet.0 (after_events-Shut es l quiet.1 shut)

closed_socket : (t : Connection) → (link t).is_open ≡ false → t.socket ≡ none
closed_socket t shut = ground arith

-- After the user's disconnect, taken outside of the window of a pending reconnect, the connection
-- stays closed whatever steps the threads make, in whatever order, until `connect` is called or a
-- loss is reported, as long as every receive thread can be started: messages that are still queued
-- and rounds of the reconnect loop open no socket.
pub disconnect_stays_closed :
    (self : Thread) (s : Connection) {es : List Event} {t : Connection}
    → IsConsistent s
    → s.auto_reconnect_pending && not (is_none s.socket) ≡ false
    → Reach (disconnect self s).1 es t
    → All IsQuiet es
    → (t.socket ≡ none) × (t.auto_reconnect_allowed ≡ false)
disconnect_stays_closed self s {es} {t} inv outside r quiet =
    let (still, gone) =
      Step-Fulfils
        (let step : Step s disconnecting (disconnect self s).1 = disconnects self outside in step)
        inv in
    let shut : Shut (link (disconnect self s).1) = ground (arith, gone) in
    let end = after_events-Shut es (link (disconnect self s).1) quiet shut in
    let same = (Reach-link still r).0 in
    (
      closed_socket t (ap (λ (l : Link). l.is_open) same ∙ end.0),
      ap (λ (l : Link). l.allowed) same ∙ end.1,
    )
