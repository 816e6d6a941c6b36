-- ===== src/Steps/Callbacks.antt =====
-- The loop of the callback thread, as a run of steps, whatever the other threads do in between
-- and whatever the user's functions do.
use lufthansa.Base.{
  ℕ, ◌≡◌, List, [], ◌∷◌, Bool, true, not, ◌&&◌, some, none, Option, inl, inr, Bool-cases, gets,
  pure, modify, All, arith, sym, subst, ◌>>=◌, drop, ◌==◌,
}
use lufthansa.Format.{Value, Form}
use lufthansa.Format.Unpack.{deserialize_data, Returned}
use lufthansa.Wire.{get_uid_from_data, get_length_from_data, get_function_id_from_data}
use lufthansa.State.{
  Connection, Method, Packet, Item, exit, meta, packet, Thread, callback_processor, slept, called,
}
use lufthansa.State.Constant
use lufthansa.Dispatch.{
  enumerate_form, Round, Try, drop_socket, call_registered, reason_value, reconnect_if_wanted,
  dispatch_disconnected, dispatch_meta, dispatch_packet, to_enumerate, call, callback_args,
  to_callback, to_device_callback, is_enumerate, spread, dispatch_item, take_item, set_items,
  callback_step, callback_loop, Progress, going, blocked, finished,
}
use lufthansa.Steps.{drops, wants, takes}
use lufthansa.Steps.Run.{
  Comes, goes, stays, one, IsRun, bind-IsRun, then-IsRun, when-IsRun, emit-IsRun, lift-IsRun,
  pure-IsRun, raise-IsRun,
}
use lufthansa.Steps.Loops.{IsFair}
use lufthansa.Steps.Reconnect.{IsFairTry, reconnect-IsRun}

drop_no_socket : (s : Connection) → (drop_socket none s).1 ≡ s
drop_no_socket s = ground arith

drop_socket-IsRun : (socket_id : Option ℕ) → IsRun (drop_socket socket_id)
drop_socket-IsRun (some socket_id) = record { run = λ s. one (drops socket_id) }
drop_socket-IsRun none = record { run = λ s. subst (Comes s) (sym (drop_no_socket s)) stays }

-- What the other threads do, and what the user's function does, are runs, and each receive thread that
-- a reconnect creates can be started.
abbrev pub IsFairRound : Round → Type 0
IsFairRound round =
    IsFair round.meanwhile × IsFair round.asleep × IsRun round.act × All IsFairTry round.tries

call_registered-IsRun :
    {act : Method (Unit {0})} (registered : Option (Option ℕ)) (args : List Value)
    → IsRun act
    → IsRun (call_registered act registered args)
call_registered-IsRun none args acted = pure-IsRun tt
call_registered-IsRun (some none) args acted = pure-IsRun tt
call_registered-IsRun (some (some f)) args acted = then-IsRun (emit-IsRun (called f args)) acted

registered_called-IsRun :
    {act : Method (Unit {0})} (id : ℕ) (args : List Value)
    → IsRun act
    → IsRun (
        gets (λ s. s.registered_callbacks id) >>= λ registered. call_registered act registered args)
registered_called-IsRun id args acted = record {
  run = λ s. (call_registered-IsRun (s.registered_callbacks id) args acted).run s;
}

reconnect_if_wanted-IsRun :
    (self : Thread) (tries : List Try)
    → All IsFairTry tries
    → IsRun (reconnect_if_wanted self tries)
reconnect_if_wanted-IsRun self tries fair = record {
  run = λ s.
      let wanting : IsRun (modify (λ s. record s { auto_reconnect_pending = true })) = record {
        run = λ s. one wants;
      } in
      (when-IsRun (s.auto_reconnect && s.auto_reconnect_allowed)
          (then-IsRun wanting (then-IsRun (reconnect-IsRun self tries fair) (pure-IsRun tt)))).run
        s;
}

dispatch_disconnected-IsRun :
    (self : Thread) (round : Round) (requested : Bool) (reason : ℕ) (socket_id : Option ℕ)
    → IsFairRound round
    → IsRun (dispatch_disconnected self round requested reason socket_id)
dispatch_disconnected-IsRun self round requested reason socket_id fair =
    let asleep : IsRun (modify round.asleep) = record { run = fair.1 } in
    then-IsRun (when-IsRun (not requested) (drop_socket-IsRun socket_id)) (
      then-IsRun (emit-IsRun slept) (
        then-IsRun asleep (
          then-IsRun
            (registered_called-IsRun Constant.callback_disconnected (reason_value reason) fair.2)
            (when-IsRun (not requested) (reconnect_if_wanted-IsRun self round.tries fair.3)))))

dispatch_meta-IsRun :
    (self : Thread) (round : Round) (function_id parameter : ℕ) (socket_id : Option ℕ)
    → IsFairRound round
    → IsRun (dispatch_meta self round function_id parameter socket_id)
unfolding dispatch_meta
dispatch_meta-IsRun self round function_id parameter socket_id fair =
    elim (Bool-cases (function_id == Constant.callback_connected)) [
      | inl up ↦
          rw up
            (registered_called-IsRun Constant.callback_connected (reason_value parameter) fair.2)
      | inr other ↦ rw other (
          when-IsRun (function_id == Constant.callback_disconnected) (
            dispatch_disconnected-IsRun self round (parameter == Constant.disconnect_reason_request)
              parameter socket_id fair))
    ]

module _ {act : Method (Unit {0})} (acted : IsRun act) where
  call-IsRun : (cb : Option ℕ) (args : List Value) → IsRun (call act cb args)
  call-IsRun none args = raise-IsRun _
  call-IsRun (some f) args = then-IsRun (emit-IsRun (called f args)) acted

  to_callback-IsRun :
      (p : Packet) (form : Option Form) (registered : Option (Option ℕ))
      → IsRun (to_callback act p form registered)
  to_callback-IsRun p form none = pure-IsRun tt
  to_callback-IsRun p form (some none) = pure-IsRun tt
  to_callback-IsRun p form (some (some f)) =
      bind-IsRun (lift-IsRun (callback_args (drop 8 p) form))
        λ (args : List Value). then-IsRun (emit-IsRun (called f args)) acted

  to_device_callback-IsRun :
      (p : Packet) (function_id : ℕ) (at : Option ℕ)
      → IsRun (to_device_callback act p function_id at)
  to_device_callback-IsRun p function_id none = pure-IsRun tt
  to_device_callback-IsRun p function_id (some at) = record {
    run = λ s.
        let d = s.objects at in
        (to_callback-IsRun p (d.callback_formats function_id)
            (d.registered_callbacks function_id)).run
          s;
  }

  to_enumerate-IsRun : (p : Packet) (cb : Option ℕ) → IsRun (to_enumerate act p cb)
  to_enumerate-IsRun p cb =
      bind-IsRun (lift-IsRun (deserialize_data (drop 8 p) enumerate_form)) λ (r : Returned).
        bind-IsRun (lift-IsRun (spread r)) λ (args : List Value). call-IsRun cb args

  -- The choice between the two kinds of callbacks.
  packet_to-IsRun :
      (p : Packet) (function_id : ℕ) (at : Option ℕ) (kind : Option (Option ℕ))
      → IsRun (elim kind [
        | some cb ↦ to_enumerate act p cb
        | none ↦ to_device_callback act p function_id at
      ])
  packet_to-IsRun p function_id at none = to_device_callback-IsRun p function_id at
  packet_to-IsRun p function_id at (some cb) = to_enumerate-IsRun p cb

  dispatch_packet-IsRun : (p : Packet) → IsRun (dispatch_packet act p)
  unfolding dispatch_packet
  dispatch_packet-IsRun p = bind-IsRun (lift-IsRun (get_uid_from_data p)) λ (uid : ℕ).
      bind-IsRun (lift-IsRun (get_length_from_data p)) λ (len : ℕ).
        bind-IsRun (lift-IsRun (get_function_id_from_data p)) λ (function_id : ℕ). record {
          run = λ s.
              (packet_to-IsRun p function_id (s.devices uid) (
                  is_enumerate function_id
                    (s.registered_callbacks Constant.callback_enumerate))).run
                s;
        }

dispatch_item-IsRun :
    (at : ℕ) (round : Round) (item : Item) → IsFairRound round → IsRun (dispatch_item at round item)
dispatch_item-IsRun at round exit fair = pure-IsRun finished
dispatch_item-IsRun at round (meta function_id parameter socket_id) fair =
    then-IsRun
      (dispatch_meta-IsRun (callback_processor at) round function_id parameter socket_id fair)
      (pure-IsRun going)
dispatch_item-IsRun at round (packet p) fair = record {
  run = λ s.
      (then-IsRun
          (when-IsRun (s.contexts at).packet_dispatch_allowed (dispatch_packet-IsRun fair.2 p))
          (pure-IsRun going)).run
        s;
}

take_item-IsRun :
    (at : ℕ) (round : Round) (items : List Item)
    → IsFairRound round
    → IsRun (take_item at round items)
take_item-IsRun at round [] fair = pure-IsRun blocked
take_item-IsRun at round (item ∷ items) fair =
    let taken : IsRun (modify (set_items at items)) = record { run = λ s. one (takes at items) } in
    then-IsRun taken (dispatch_item-IsRun at round item fair)

callback_step-IsRun : (at : ℕ) (round : Round) → IsFairRound round → IsRun (callback_step at round)
unfolding callback_step
callback_step-IsRun at round fair = record {
  run = λ s.
      let u = round.meanwhile s in
      goes (fair.0 s) ((take_item-IsRun at round (u.contexts at).queue fair).run u);
}

-- The loop goes on after a round.
continued-IsRun :
    (at : ℕ) (rounds : List Round) (progress : Progress)
    → IsRun (callback_loop at rounds)
    → IsRun (elim progress [
      | going ↦ callback_loop at rounds
      | blocked ↦ pure blocked
      | finished ↦ pure finished
    ])
continued-IsRun at rounds going more = more
continued-IsRun at rounds blocked more = pure-IsRun blocked
continued-IsRun at rounds finished more = pure-IsRun finished

pub callback_loop-IsRun :
    (at : ℕ) (rounds : List Round) → All IsFairRound rounds → IsRun (callback_loop at rounds)
unfolding callback_loop
callback_loop-IsRun at [] fair = pure-IsRun going
callback_loop-IsRun at (round ∷ rounds) fair =
    bind-IsRun (callback_step-IsRun at round fair.0) λ (progress : Progress).
      continued-IsRun at rounds progress (callback_loop-IsRun at rounds fair.1)
