-- ===== src/Controller/SetPosition.antt =====
-- seat_controller.cc: seatctrl_set_position. While the call sleeps the reader thread works on the
-- same context: `arrivals k` is what the thread reads during the k-th `usleep` of the call. Between
-- two sleeps the call runs without interference.
use kuksa_val_services.Prelude.{
  ℕ, zero, suc, ℤ, pos, Bool, true, false, not, ◌||◌, List, ltb_ℤ, ltb, ◌==◌, if◌then◌else◌, to_u8,
}
use kuksa_val_services.Controller.Types.{
  Seat, Platform, MotorDirection, inc, dec, off, direction_code, motor_pos_invalid,
  seat_ctrl_context_magic, seat_ctrl_ok, seat_ctrl_err_invalid, seat_ctrl_err_no_frames,
}
use kuksa_val_services.Controller.Commands.{get_ts, send_cmd1, stop_movement, no_target}
use kuksa_val_services.Controller.Thread.{ReadResult, thread_loop}

abbrev pub position_retries : ℕ
position_retries = 30

-- `desired_position < 0 || desired_position > 100`
abbrev pub is_bad_position : ℤ → Bool
is_bad_position d = ltb_ℤ d (pos 0) || ltb_ℤ (pos 100) d

abbrev pub direction_to : ℕ → ℕ → MotorDirection
direction_to current desired = if ltb current desired then inc else dec

module _ (p : Platform) (arrivals : ℕ → List ReadResult) where
  unfoldable pub sleep : ℕ → Seat → Seat
  sleep k s = (thread_loop p (arrivals k) s).1

  -- The retries that are left, and the number of the next sleep.
  unfoldable pub wait_position : ℕ → ℕ → Seat → ℕ × Seat
  wait_position zero k s = (k, s)
  wait_position (suc n) k s = elim (s.ctx.motor1_pos == motor_pos_invalid) [
    | false ↦ (k, s)
    | true ↦ wait_position n (suc k) (sleep k s)
  ]

  -- The call has stopped the motor and slept: start towards the position.
  abbrev pub begin_move : ℕ → Seat → Seat
  begin_move desired s =
      let (now, t) = get_ts p s in
      record t {
        ctx = record (t.ctx) {
          command_ts = now;
          desired_direction = direction_to s.ctx.motor1_pos desired;
          desired_position = desired;
        };
      }

  unfoldable pub start_move : ℕ → Seat → Seat × ℤ
  start_move desired s =
      let u = begin_move desired s in
      send_cmd1 p u (direction_code u.ctx.desired_direction) (to_u8 u.ctx.config.motor_rpm)

  -- The position is the requested one already.
  unfoldable pub stay : Seat → Seat × ℤ
  stay s = (
    if not (s.ctx.motor1_mov_state == direction_code off)
        then (stop_movement p s).0
        else record s { ctx = no_target s.ctx },
    seat_ctrl_ok,
  )

  abbrev pub move_or_stay : ℕ → Seat → Seat × ℤ
  move_or_stay desired s = if s.ctx.motor1_pos == desired then stay s else start_move desired s

  -- From the off command on.
  unfoldable pub move_to : ℕ → ℕ → Seat → Seat × ℤ
  move_to k desired s = move_or_stay desired (sleep k (stop_movement p s).0)

  abbrev pub known_position : ℕ × Seat → ℕ → Seat × ℤ
  known_position (k, s) desired =
      if s.ctx.motor1_pos == motor_pos_invalid
      then (s, seat_ctrl_err_no_frames)
      else move_to k desired s

  unfoldable pub set_position : Seat → ℤ → Seat × ℤ
  set_position s desired =
      if not (s.ctx.magic == seat_ctrl_context_magic)
      then (s, seat_ctrl_err_invalid)
      else if is_bad_position desired
      then (s, seat_ctrl_err_invalid)
      else known_position (wait_position position_retries 0 s) (to_u8 desired)
