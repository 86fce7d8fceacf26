-- ===== src/Controller/Commands.antt =====
-- seat_controller.cc: the commands to the ECU, and the small operations on the context.
use kuksa_val_services.Prelude.{
  ℕ, suc, ℤ, pos, Bool, not, ◌&&◌, Option, none, some, ltb, ◌==◌, ◌==ℤ◌, if◌then◌else◌, List,
}
use kuksa_val_services.Controller.Types.{
  Seat, Context, Platform, CanFrame, Output, sent, called, can_error, MotorDirection, off, emit,
  direction_code, motor_pos_invalid, socket_invalid, seat_ctrl_context_magic, seat_ctrl_ok,
  seat_ctrl_err, seat_ctrl_err_can_io, seat_ctrl_err_invalid,
}

abbrev pub is_off : MotorDirection → Bool
is_off d = direction_code d == 0

unfoldable pub is_ctl_running : Context → Bool
is_ctl_running c =
    not (c.socket ==ℤ socket_invalid)
    && ltb 0 c.command_ts
    && not (is_off c.desired_direction)
    && not (c.desired_position == motor_pos_invalid)

unfoldable pub get_position : Context → ℤ
get_position c =
    if not (c.magic == seat_ctrl_context_magic)
    then seat_ctrl_err_invalid
    else if not c.running
    then seat_ctrl_err
    else pos c.motor1_pos

unfoldable pub set_event_callback : Seat → Option ℕ → ℕ → Seat × ℤ
set_event_callback s cb user_data =
    if not (s.ctx.magic == seat_ctrl_context_magic) then (s, seat_ctrl_err_invalid) else (
      record s { ctx = record (s.ctx) { event_cb = cb; event_cb_user_data = user_data } },
      seat_ctrl_ok,
    )

-- if (ctx->event_cb) ctx->event_cb(type, value, ctx->event_cb_user_data)
abbrev pub call_event_cb : Option ℕ → Seat → (Seat → ℕ → Output) → Seat
call_event_cb none s o = s
call_event_cb (some f) s o = emit (o s f) s

-- The end of seatctrl_send_cmd1, on the result of `write`.
unfoldable pub after_write : Option ℕ → CanFrame → Seat → Seat × ℤ
after_write none frame s = (emit (sent frame) s, seat_ctrl_ok)
after_write (some errno) frame s = (
  call_event_cb s.ctx.event_cb s (λ t f. called f can_error errno t.ctx.event_cb_user_data),
  seat_ctrl_err_can_io,
)

-- The states that seatctrl_stop_movement invalidates.
abbrev pub no_target : Context → Context
no_target c = record c {
  desired_position = motor_pos_invalid;
  desired_direction = off;
  command_ts = 0;
}

module _ (p : Platform) where
  -- get_ts: one reading of the clock.
  abbrev pub get_ts : Seat → ℕ × Seat
  get_ts s = (p.clock s.clock_reads, record s { clock_reads = suc s.clock_reads })

  abbrev pub after_pack : Option (List ℕ) → Seat → Seat × ℤ
  after_pack none s = (s, seat_ctrl_err)
  after_pack (some bytes) s =
      after_write (p.write s.writes)
        (record { can_id = p.cmd_1_frame_id; can_dlc = 8; payload = bytes })
        (record s { writes = suc s.writes })

  unfoldable pub send_cmd1 : Seat → ℕ → ℕ → Seat × ℤ
  unfolding after_write
  send_cmd1 s motor1_dir motor1_rpm =
      if s.ctx.socket ==ℤ socket_invalid
      then (s, seat_ctrl_err)
      else after_pack
          (p.cmd_1_pack (record { motor1_manual_cmd = motor1_dir; motor1_set_rpm = motor1_rpm })) s

  unfoldable pub stop_movement : Seat → Seat × ℤ
  stop_movement s =
      let (t, rc) = send_cmd1 s (direction_code off) 0 in (record t { ctx = no_target t.ctx }, rc)
