-- ===== src/Controller/Stopping.antt =====
-- What the control loop sends when it ends an operation.
use kuksa_val_services.Prelude.{
  ℕ, ℤ, sub_ℕ, ◌≡◌, ◌≢◌, ◌∙◌, ==ℤ_iff, true, false, ◌||◌, ltb_ℤ, none, arith,
}
use kuksa_val_services.Controller.Types.{Seat, Platform, Cmd1, socket_invalid, seat_ctrl_ok}
use kuksa_val_services.Controller.Commands.{send_cmd1, stop_movement, is_ctl_running, get_ts}
use kuksa_val_services.Controller.ControlLoop.{
  control_loop, supervise, end_operation, check_motor, finish, update_learned_mode, is_reached,
  is_starting,
}
use kuksa_val_services.Controller.Effects.{
  control_loop-ctx, check_motor-ctx, update_learned_mode-ctx,
}
use kuksa_val_services.Controller.Outcomes.{LastSent, send_cmd1-ok}
use kuksa_val_services.Controller.Operation.{loop_time}

-- The socket takes every frame and every command can be packed.
pub record IsReliable (p : Platform) : Type 0 where
  pub writes_succeed : (n : ℕ) → p.write n ≡ none
  pub packs_succeed : (c : Cmd1) → p.cmd_1_pack c ≢ none

module _ (p : Platform) where
  send_cmd1_reliable :
      (s : Seat) (d r : ℕ)
      → IsReliable p
      → s.ctx.socket ≢ socket_invalid
      → (send_cmd1 p s d r).1 ≡ seat_ctrl_ok
  unfolding send_cmd1
  send_cmd1_reliable s d r ok h = ground (
    arith,
    ok.writes_succeed s.writes,
    ok.packs_succeed (record { motor1_manual_cmd = d; motor1_set_rpm = r }),
    ==ℤ_iff s.ctx.socket socket_invalid,
  )

  finish_reliable :
      (s : Seat) → IsReliable p → s.ctx.socket ≢ socket_invalid → LastSent p 0 0 (finish p s)
  unfolding finish stop_movement
  finish_reliable s ok h = send_cmd1-ok p s 0 0 (send_cmd1_reliable s 0 0 ok h)

  end_operation-finish :
      (e : ℤ) (s : Seat)
      → (is_reached s.ctx || ltb_ℤ s.ctx.config.command_timeout e) ≡ true
      → end_operation p e s ≡ finish p s
  unfolding end_operation
  end_operation-finish e s d = ground arith

  supervise-finish :
      (s : Seat)
      → let e = sub_ℕ (p.clock s.clock_reads) s.ctx.command_ts in
        is_starting e s.ctx ≡ false
        → (is_reached s.ctx || ltb_ℤ s.ctx.config.command_timeout e) ≡ true
        → supervise p s ≡ finish p (check_motor p (get_ts p s).1)
  unfolding supervise
  supervise-finish s wait over =
      let t : Seat = (get_ts p s).1 in
      let e : ℤ = sub_ℕ (p.clock s.clock_reads) s.ctx.command_ts in
      ground (arith, check_motor-ctx p t, end_operation-finish e (check_motor p t))

  -- What a round has found when it ends the operation.
  control_loop-due :
      (s : Seat)
      → is_ctl_running s.ctx ≡ true
      → is_ctl_running (control_loop p s).0.ctx ≡ false
      → let e = sub_ℕ (loop_time p s) s.ctx.command_ts in
        (is_starting e s.ctx ≡ false)
        × ((is_reached s.ctx || ltb_ℤ s.ctx.config.command_timeout e) ≡ true)
  control_loop-due s on over = ground (arith, control_loop-ctx p s)

  -- A round that ends the operation is a call of `finish` on an unchanged context.
  control_loop-finish :
      (s : Seat)
      → is_ctl_running s.ctx ≡ true
      → is_ctl_running (control_loop p s).0.ctx ≡ false
      → (t : Seat) × (t.ctx ≡ s.ctx) × ((control_loop p s).0 ≡ finish p t)
  unfolding control_loop
  control_loop-finish s on over =
      let u : Seat = update_learned_mode p s in
      let t : Seat = (get_ts p u).1 in
      let same : u.ctx ≡ s.ctx = update_learned_mode-ctx p s in
      let due = control_loop-due s on over in
      (check_motor p t, check_motor-ctx p t ∙ same, ground (arith, same, due, supervise-finish u))

  -- The control loop ends an operation only by stopping the motor: where a round finds an
  -- operation pending and leaves none, its newest output is the frame for "off" at speed 0,
  -- provided that the socket is open and takes every frame, and that every command can be packed.
  pub control_loop-LastSent :
      (s : Seat)
      → IsReliable p
      → s.ctx.socket ≢ socket_invalid
      → is_ctl_running s.ctx ≡ true
      → is_ctl_running (control_loop p s).0.ctx ≡ false
      → LastSent p 0 0 (control_loop p s).0
  control_loop-LastSent s ok h on over =
      let (t, same, e) = control_loop-finish s on over in rw e (finish_reliable t ok (ground arith))
