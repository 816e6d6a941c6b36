-- ===== src/Steps/Link.antt =====
-- What a connection promises, with its threads, queues and sockets left out: whether it is open,
-- whether a reconnect is allowed and pending, and whether the user wants reconnects at all.
use lufthansa.Base.{arith, ◌≡◌, Bool, true, false, ◌&&◌, not, is_none, if◌then◌else◌}
use lufthansa.State.{Connection}
use lufthansa.Lifecycle.{ConnectionState, disconnected, connected, pending, get_connection_state}
use lufthansa.Steps.{
  Event, connecting, sending, dropping, retrying, probing, setting, disconnecting, losing, wanting,
  other,
}

pub record Link : Type 0 where
  pub is_open : Bool
  pub allowed : Bool
  pub waiting : Bool
  pub wanted : Bool

abbrev pub link : Connection → Link
link s = record {
  is_open = not (is_none s.socket);
  allowed = s.auto_reconnect_allowed;
  waiting = s.auto_reconnect_pending;
  wanted = s.auto_reconnect;
}

-- A new socket.
abbrev pub opened_link : Link → Link
opened_link l = record l { is_open = true; allowed = false; waiting = false }

-- The specification of the steps.
abbrev pub next_link : Event → Link → Link
next_link (connecting through) l = if l.is_open then l else if through then opened_link l else l
next_link disconnecting l = record l { is_open = false; allowed = false; waiting = false }
next_link (sending written) l =
    if l.is_open && not written then record l { is_open = false; allowed = true } else l
next_link losing l = record l { allowed = true }
next_link (dropping current) l = record l { is_open = l.is_open && not current }
next_link wanting l = record l { waiting = true }
next_link (retrying through) l =
    if l.allowed && not l.is_open
    then (if through then opened_link l else l)
    else record l { waiting = false }
next_link (probing failed) l = if failed then record l { allowed = true } else l
next_link (setting wanted) l = record l { wanted = wanted; allowed = l.allowed && wanted }
next_link other l = l

-- The state that the user is told.
abbrev pub told : Link → ConnectionState
told l = if l.is_open then connected else if l.waiting then pending else disconnected

pub get_connection_state-told : (s : Connection) → get_connection_state s ≡ told (link s)
unfolding get_connection_state
get_connection_state-told s = ground arith
