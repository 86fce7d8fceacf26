-- ===== src/Controller/Effects.antt =====
-- What each operation of the control thread does to the context: motor state, target, or nothing.
use kuksa_val_services.Prelude.{
  to_u8, sub_ℕ, ltb_ℤ, not, ◌&&◌, ◌||◌, if◌then◌else◌, ℕ, ◌≡◌, ℤ, arith,
}
use kuksa_val_services.Controller.Types.{Seat, Platform, Stat, off, direction_code}
use kuksa_val_services.Controller.Commands.{
  get_ts, send_cmd1, stop_movement, is_ctl_running, no_target,
}
use kuksa_val_services.Controller.Status.{notify_position}
use kuksa_val_services.Controller.ControlLoop.{
  is_reached, is_starting, control_loop, supervise, end_operation, check_motor, finish, resend,
  update_learned_mode,
}

module _ (p : Platform) where
  -- A command leaves the context alone.
  pub send_cmd1-ctx : (s : Seat) (d r : ℕ) → (send_cmd1 p s d r).0.ctx ≡ s.ctx
  unfolding send_cmd1
  send_cmd1-ctx s d r = ground arith

  pub stop_movement-ctx : (s : Seat) → (stop_movement p s).0.ctx ≡ no_target s.ctx
  unfolding stop_movement
  stop_movement-ctx s = rw (send_cmd1-ctx s (direction_code off) 0)

  pub update_learned_mode-ctx : (s : Seat) → (update_learned_mode p s).ctx ≡ s.ctx
  unfolding update_learned_mode
  update_learned_mode-ctx s = ground arith

  pub resend-ctx : (s : Seat) → (resend p s).ctx ≡ s.ctx
  unfolding resend
  resend-ctx s = ground (
    arith,
    send_cmd1-ctx s (direction_code off) 0,
    send_cmd1-ctx (send_cmd1 p s (direction_code off) 0).0
        (direction_code (send_cmd1 p s (direction_code off) 0).0.ctx.desired_direction)
        (to_u8 (send_cmd1 p s (direction_code off) 0).0.ctx.config.motor_rpm),
  )

  pub check_motor-ctx : (s : Seat) → (check_motor p s).ctx ≡ s.ctx
  unfolding check_motor
  check_motor-ctx s = ground (arith, resend-ctx s)

  pub finish-ctx : (s : Seat) → (finish p s).ctx ≡ no_target s.ctx
  unfolding finish
  finish-ctx s = stop_movement-ctx s

  -- A status frame changes nothing of the context but the motor's state.
  pub notify_position-ctx : (t : Stat) (s : Seat) → (notify_position p t s).ctx ≡ s.ctx
  unfolding notify_position
  notify_position-ctx t s = ground arith

  end_operation-ctx :
      (e : ℤ) (s : Seat)
      → (end_operation p e s).ctx ≡ (
          if is_reached s.ctx || ltb_ℤ s.ctx.config.command_timeout e
          then no_target s.ctx
          else s.ctx)
  unfolding end_operation
  end_operation-ctx e s = ground (arith, finish-ctx s)

  -- What one round of the control loop does to the context, in terms of the time since the command.
  pub supervise-ctx :
      (s : Seat)
      → let e = sub_ℕ (p.clock s.clock_reads) s.ctx.command_ts in
        (supervise p s).ctx ≡ (
          if not (is_starting e s.ctx) && (is_reached s.ctx || ltb_ℤ s.ctx.config.command_timeout e)
          then no_target s.ctx
          else s.ctx)
  unfolding supervise
  supervise-ctx s =
      let t : Seat = (get_ts p s).1 in
      let e : ℤ = sub_ℕ (p.clock s.clock_reads) s.ctx.command_ts in
      ground (arith, end_operation-ctx e (check_motor p t), check_motor-ctx t)

  -- One round of the loop after a status frame, with the clock reading that it is based on.
  pub control_loop-ctx :
      (s : Seat)
      → let t = update_learned_mode p s in
        let e = sub_ℕ (p.clock t.clock_reads) s.ctx.command_ts in
        (control_loop p s).0.ctx ≡ (
          if is_ctl_running s.ctx
            && not (is_starting e s.ctx)
            && (is_reached s.ctx || ltb_ℤ s.ctx.config.command_timeout e)
          then no_target s.ctx
          else s.ctx)
  unfolding control_loop
  control_loop-ctx s =
      let t : Seat = update_learned_mode p s in
      ground (arith, supervise-ctx t, update_learned_mode-ctx s)
