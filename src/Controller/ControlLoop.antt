-- ===== src/Controller/ControlLoop.antt =====
-- seat_controller.cc: seatctrl_control_loop, which runs after every accepted SECU1_STAT frame.
-- Logging is left out, with the clock readings that only serve it.
use kuksa_val_services.Prelude.{
  ℕ, ◌+◌, ◌-◌, ◌%◌, ◌^◌, ℤ, pos, negsuc, sub_ℕ, ltb_ℤ, to_u8, Bool, true, false, not, ◌&&◌, ◌||◌,
  ltb, leb, ◌==◌, if◌then◌else◌, pos_part, neg_part,
}
use kuksa_val_services.Controller.Types.{
  Seat, Context, Platform, off, direction_code, learning_code, not_learned, learned,
  motor_pos_invalid, seat_ctrl_ok,
}
use kuksa_val_services.Controller.Commands.{get_ts, send_cmd1, stop_movement, is_ctl_running}

-- `int ts = get_ts()`: a 64-bit reading is cut to 32 bits.
abbrev pub to_i32 : ℕ → ℤ
to_i32 n = let w = n % 2 ^ 32 in if ltb w (2 ^ 31) then pos w else negsuc (2 ^ 32 - w - 1)

abbrev pub learned_mode_rate : ℤ
learned_mode_rate = pos 10000

-- a - b
abbrev pub minus : ℤ → ℤ → ℤ
minus a b = sub_ℕ (pos_part a + neg_part b) (neg_part a + pos_part b)

-- The operation's target is reached, or passed, in its direction.
abbrev pub is_reached : Context → Bool
is_reached c =
    not (c.motor1_pos == motor_pos_invalid)
    && (direction_code c.desired_direction == 2 && leb c.desired_position c.motor1_pos
        || direction_code c.desired_direction == 1 && leb c.motor1_pos c.desired_position)

-- The command was just sent, and the motor does not move yet.
abbrev pub is_starting : ℤ → Context → Bool
is_starting elapsed c =
    ltb_ℤ elapsed (pos 500)
    && c.motor1_mov_state == direction_code off
    && not (c.motor1_pos == c.desired_position)

-- The motor stands, although it should move and is not at the target.
abbrev pub needs_resend : Context → Bool
needs_resend c =
    not (c.motor1_mov_state == direction_code c.desired_direction)
    && not (c.motor1_pos == c.desired_position)
    && c.motor1_mov_state == direction_code off

abbrev pub state_changed : Seat → Bool
state_changed s =
    not (s.statics.last_ctl_pos == s.ctx.motor1_pos)
    || not (s.statics.last_ctl_dir == s.ctx.motor1_mov_state)

module _ (p : Platform) where
  -- The learned mode changes to `mode`; the time of the last log line is kept.
  abbrev pub change_learned_mode : Bool → Seat → Seat
  change_learned_mode mode s =
      let (now, t) = get_ts p s in
      let ts = to_i32 now in
      let changed = t.statics.learned_mode_changed in
      record t {
        statics = record (t.statics) {
          learned_mode = mode;
          learned_mode_changed = if ltb_ℤ learned_mode_rate (minus ts changed) then ts else changed;
        };
      }

  unfoldable pub update_learned_mode : Seat → Seat
  update_learned_mode s =
      if s.statics.learned_mode && s.ctx.motor1_learning_state == learning_code not_learned
      then change_learned_mode false s
      else if not s.statics.learned_mode && s.ctx.motor1_learning_state == learning_code learned
      then change_learned_mode true s
      else s

  -- The workaround for an ECU that stops at a threshold: off, then the command again.
  unfoldable pub resend : Seat → Seat
  resend s =
      let (t, rc0) = send_cmd1 p s (direction_code off) 0 in
      (send_cmd1 p t (direction_code t.ctx.desired_direction) (to_u8 t.ctx.config.motor_rpm)).0

  abbrev pub remember : Seat → Seat
  remember s = record s {
    statics = record (s.statics) {
      last_ctl_dir = s.ctx.motor1_mov_state;
      last_ctl_pos = s.ctx.motor1_pos;
    };
  }

  unfoldable pub check_motor : Seat → Seat
  check_motor s =
      if state_changed s then remember (if needs_resend s.ctx then resend s else s) else s

  -- The operation is over: stop, and invalidate the last states.
  unfoldable pub finish : Seat → Seat
  finish s =
      let t = (stop_movement p s).0 in
      record t {
        statics = record (t.statics) { last_ctl_dir = 0; last_ctl_pos = motor_pos_invalid };
      }

  unfoldable pub end_operation : ℤ → Seat → Seat
  end_operation elapsed s =
      if is_reached s.ctx
      then finish s
      else if ltb_ℤ s.ctx.config.command_timeout elapsed
      then finish s
      else s

  unfoldable pub supervise : Seat → Seat
  supervise s =
      let (now, t) = get_ts p s in
      let elapsed = sub_ℕ now t.ctx.command_ts in
      if is_starting elapsed t.ctx then t else end_operation elapsed (check_motor t)

  unfoldable pub control_loop : Seat → Seat × ℤ
  control_loop s =
      let t = update_learned_mode s in
      (if is_ctl_running t.ctx then supervise t else t, seat_ctrl_ok)
