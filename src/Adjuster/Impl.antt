-- ===== src/Adjuster/Impl.antt =====
-- seat_adjuster.cc: SeatAdjusterImpl, the seat adjuster over the controller.
use kuksa_val_services.Prelude.{
  ℕ, ℤ, pos, negsuc, ltb_ℤ, ◌==ℤ◌, ◌==◌, Bool, not, ◌||◌, List, [], ◌∷◌, Option, none, some, String,
  if◌then◌else◌,
}
use kuksa_val_services.Controller.Types.{
  Seat, Platform, CanFrame, Output, sent, called, SeatCtrlEvent, can_error, motor1_pos_changed,
  motor_pos_invalid, seat_ctrl_ok, seat_ctrl_err, seat_ctrl_err_no_can, seat_ctrl_err_ifr,
  seat_ctrl_err_can_bind, seat_ctrl_err_can_io, seat_ctrl_err_invalid, seat_ctrl_err_no_frames,
}
use kuksa_val_services.Controller.Commands.{get_position, set_event_callback}
use kuksa_val_services.Controller.Thread.{ReadResult, thread_loop}
use kuksa_val_services.Controller.SetPosition.{set_position}
use kuksa_val_services.Controller.Lifecycle.{
  Environment, OpenCalls, CloseCalls, default_config, init_ctx, open_ctx, close_ctx,
}
use kuksa_val_services.Adjuster.Interface.{
  SeatAdjuster, SetResult, ok, unspecific_error, no_can, can_if_index_error, can_bind_error,
  can_io_error, invalid_arg, no_frames, seat_position_invalid,
}

-- The context, `cb_`, the calls of `cb_` and the frames on the bus (the newest first), and the code
-- with which abort_service has ended the process.
pub record Adjuster : Type 0 where
  pub seat : Seat
  pub cb : Option ℕ
  pub fed : List (ℕ × ℤ)
  pub bus : List CanFrame
  pub exited : Option ℤ

abbrev pub abort_service : ℤ → Adjuster → Adjuster
abort_service rc a = record a { exited = some rc }

-- Scaled to match get_seat_position.
abbrev pub callback_position : ℕ → ℤ
callback_position value = if value == motor_pos_invalid then negsuc 0 else pos value

unfoldable pub call_cb : Option ℕ → ℕ → Adjuster → Adjuster
call_cb none value a = a
call_cb (some f) value a = record a { fed = (f, callback_position value) ∷ a.fed }

unfoldable pub get_seat_position : Adjuster → ℤ
get_seat_position a =
    let position = get_position a.seat.ctx in
    if position ==ℤ pos motor_pos_invalid || ltb_ℤ position (pos 0)
    then seat_position_invalid
    else position

-- The `switch` of SetSeatPosition.
unfoldable pub to_set_result : ℤ → SetResult
to_set_result rc =
    if rc ==ℤ seat_ctrl_ok
    then ok
    else if rc ==ℤ seat_ctrl_err
    then unspecific_error
    else if rc ==ℤ seat_ctrl_err_no_can
    then no_can
    else if rc ==ℤ seat_ctrl_err_ifr
    then can_if_index_error
    else if rc ==ℤ seat_ctrl_err_can_bind
    then can_bind_error
    else if rc ==ℤ seat_ctrl_err_can_io
    then can_io_error
    else if rc ==ℤ seat_ctrl_err_invalid
    then invalid_arg
    else if rc ==ℤ seat_ctrl_err_no_frames
    then no_frames
    else unspecific_error

unfoldable pub subscribe_position : Adjuster → Option ℕ → Adjuster
subscribe_position a f = record a { cb = f }

module _ (exit_on_error : Bool) where
  -- The static callback; `user_data` is the address of the adjuster, or 0.
  unfoldable pub seatctrl_event_cb : SeatCtrlEvent → ℕ → ℕ → Adjuster → Adjuster
  unfolding call_cb
  seatctrl_event_cb can_error value user_data a =
      if exit_on_error then abort_service (pos value) a else a
  seatctrl_event_cb motor1_pos_changed value user_data a =
      if not (user_data == 0) then call_cb a.cb value a else a

  -- What a call of the controller put out, the oldest first.
  unfoldable pub absorb : List Output → Adjuster → Adjuster
  unfolding seatctrl_event_cb
  absorb [] a = a
  absorb (sent f ∷ os) a = let b = absorb os a in record b { bus = f ∷ b.bus }
  absorb (called cb event value user_data ∷ os) a =
      seatctrl_event_cb event value user_data (absorb os a)

  -- A call of the controller on the adjuster's context.
  unfoldable pub with_seat : Seat → Adjuster → Adjuster
  unfolding absorb
  with_seat s a = absorb s.outputs (record a { seat = record s { outputs = [] } })

  -- The constructor's error branch.
  abbrev pub give_up : ℤ → Adjuster → Adjuster
  give_up rc a = if exit_on_error then abort_service rc a else a

  module _ (p : Platform) where
    -- The reader thread works while no call of the adjuster runs.
    unfoldable pub on_reads : List ReadResult → Adjuster → Adjuster
    unfolding with_seat
    on_reads rs a = with_seat (thread_loop p rs a.seat).1 a

    unfoldable pub set_seat_position : (ℕ → List ReadResult) → Adjuster → ℤ → Adjuster × SetResult
    unfolding with_seat to_set_result
    set_seat_position arrivals a position_in_percent =
        let (s, rc) = set_position p arrivals a.seat position_in_percent in
        (with_seat s a, to_set_result rc)

    -- The implementation of the interface, for a call during which `arrivals` is read.
    abbrev pub adjuster : (ℕ → List ReadResult) → SeatAdjuster Adjuster
    adjuster arrivals = record {
      get_seat_position = get_seat_position;
      set_seat_position = set_seat_position arrivals;
      subscribe_position = subscribe_position;
    }

  -- The address of the adjuster and that of its static callback.
  module _ (self event_cb : ℕ) where
    unfoldable pub construct_opened : OpenCalls → Adjuster → Adjuster
    construct_opened o a =
        let (s, rc) = open_ctx o a.seat in
        let b = record a { seat = s } in if rc ==ℤ seat_ctrl_ok then b else give_up rc b

    unfoldable pub construct_subscribed : OpenCalls → Adjuster → Adjuster
    unfolding construct_opened
    construct_subscribed o a =
        let (s, rc) = set_event_callback a.seat (some event_cb) self in
        let b = record a { seat = s } in
        if rc ==ℤ seat_ctrl_ok then construct_opened o b else give_up rc b

    -- The constructor. The result of seatctrl_default_config is not looked at.
    unfoldable pub construct : Environment → OpenCalls → String → Seat → Adjuster
    unfolding construct_subscribed
    construct env o can_if_name s =
        let config = record (default_config env).0 { can_device = some can_if_name } in
        let (t, rc) = init_ctx s config in
        let a : Adjuster = record { seat = t; cb = none; fed = []; bus = []; exited = none } in
        if rc ==ℤ seat_ctrl_ok then construct_subscribed o a else give_up rc a

-- The destructor.
unfoldable pub destroy : CloseCalls → Adjuster → Adjuster
destroy o a = record a { seat = (close_ctx o a.seat).0 }
