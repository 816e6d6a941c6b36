-- ===== src/Lifecycle/Connect.antt =====
-- `connect` on every branch.
use lufthansa.Base.{
  ℕ, ◌+◌, ◌≡◌, refl, sym, subst, subst₂, List, [], ◌∷◌, ◌++◌, Bool, true, false, Option, none, some,
  String, arith, ok, err, Exception, ip_error, already_connected,
}
use lufthansa.State.{Connection, Item, meta, Thread}
use lufthansa.State.Constant
use lufthansa.Lifecycle.{Attempt, connect, get_connection_state, connected}
use lufthansa.Lifecycle.Consistent.{IsConsistent, at_fields, at_fields_lem}

-- Every thread starts and the peer accepts.
abbrev pub success : ℕ → Attempt
success handle = record {
  callback_starts = true;
  accepted = some handle;
  probe_starts = true;
  receiver_starts = true;
}

-- The receive thread starts.
abbrev pub attempt : Bool → Option ℕ → Bool → Attempt
attempt callback accepted probe = record {
  callback_starts = callback;
  accepted = accepted;
  probe_starts = probe;
  receiver_starts = true;
}

-- The context that a connection uses from then on: the one that is left, or a new one.
abbrev pub context_after : Option ℕ → ℕ → ℕ
context_after none next = next
context_after (some at) next = at

-- The items that were already waiting in it.
abbrev pub items_before : Option ℕ → Connection → List Item
items_before none s = []
items_before (some at) s = (s.contexts at).queue

-- An attempt on a closed connection that the environment grants connects: the state is connected
-- with the new socket under the next socket id, a reconnect is neither pending nor allowed, the
-- invariant holds, packets may be dispatched, and the connected message with the reason "request"
-- is put behind the items that the callback queue held.
pub connect_succeeds :
    (self : Thread) (host : String) (port handle : ℕ) (s : Connection)
    → s.socket ≡ none
    → let (r, s') = connect self (success handle) host port s in
      let at = context_after s.callback s.context_count in
      (r ≡ ok tt)
      × (get_connection_state s' ≡ connected)
      × (s'.socket ≡ some handle)
      × (s'.socket_id ≡ s.socket_id + 1)
      × (s'.auto_reconnect_pending ≡ false)
      × (s'.auto_reconnect_allowed ≡ false)
      × IsConsistent s'
      × (s'.callback ≡ some at)
      × ((s'.contexts at).packet_dispatch_allowed ≡ true)
      × ((s'.contexts at).queue
          ≡ items_before s.callback s
            ++ (meta Constant.callback_connected Constant.connect_reason_request none ∷ []))
unfolding connect get_connection_state
connect_succeeds self host port handle s closed = ground arith

-- Connecting an open connection raises and changes nothing.
pub connect_twice :
    (self : Thread) (att : Attempt) (host : String) (port handle : ℕ) (s : Connection)
    → s.socket ≡ some handle
    → connect self att host port s ≡ (err (ip_error already_connected), s)
unfolding connect
connect_twice self att host port handle s open_socket = ground arith

-- What a failed attempt leaves behind.
abbrev pub Cleaned : Connection → Type 0
Cleaned s = (s.socket ≡ none) × (s.callback ≡ none) × IsConsistent s

module _ (self : Thread) (host : String) (port : ℕ) (s : Connection) (e : Exception) where
  -- The result and the state of an attempt, if it fails.
  abbrev FailsClean : Attempt → Connection → Type 0
  FailsClean att t =
      (connect self att host port t).0 ≡ err e → Cleaned (connect self att host port t).1

  fails_clean :
      (c : Bool) (a : Option ℕ) (p : Bool) (callback : Option ℕ)
      → IsConsistent (at_fields s none callback)
      → FailsClean (attempt c a p) (at_fields s none callback)
  unfolding connect
  fails_clean false a p none inv failed = (refl, refl, inv)
  fails_clean true none p none inv failed = ground arith
  fails_clean true (some handle) false none inv failed = ground arith
  fails_clean true (some handle) true none inv failed = cc
  fails_clean c none p (some at) inv failed = ground arith
  fails_clean c (some handle) false (some at) inv failed = ground arith
  fails_clean c (some handle) true (some at) inv failed = cc

-- A failed attempt leaves nothing behind, as long as it is not the receive thread that fails to
-- start: no socket, no callback context, and the invariant, so that `connect` can be tried again.
pub connect_fails :
    (self : Thread) (att : Attempt) (host : String) (port : ℕ) (s : Connection) (e : Exception)
    → s.socket ≡ none
    → IsConsistent s
    → att.receiver_starts ≡ true
    → (connect self att host port s).0 ≡ err e
    → Cleaned (connect self att host port s).1
connect_fails self att host port s e closed inv starts failed =
    let this = attempt att.callback_starts att.accepted att.probe_starts in
    let same_att : this ≡ att = λ i. record att { receiver_starts = sym starts i } in
    let same = at_fields_lem s closed refl in
    subst₂ (λ a t. FailsClean self host port s e a t) same_att same
      (fails_clean self host port s e att.callback_starts att.accepted att.probe_starts s.callback
        (subst IsConsistent (sym same) inv))
      failed
