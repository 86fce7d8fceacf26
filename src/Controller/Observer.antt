-- ===== src/Controller/Observer.antt =====
-- What the event callback learns of the motor's position.
use kuksa_val_services.Prelude.{
  to_u8, sub_ℕ, ◌==◌, if◌then◌else◌, ℕ, ℤ, ◌≡◌, ◌≢◌, inl, inr, true, List, [], ◌∷◌, none, arith,
  Option-cases,
}
use kuksa_val_services.Controller.Types.{
  Seat, Platform, CanFrame, Stat, Output, sent, called, can_error, motor1_pos_changed,
  seat_ctrl_context_magic, direction_code, off,
}
use kuksa_val_services.Controller.Commands.{get_ts, send_cmd1, stop_movement}
use kuksa_val_services.Controller.Status.{handle_secu_stat, take_stat, notify_position}
use kuksa_val_services.Controller.ControlLoop.{
  control_loop, supervise, end_operation, check_motor, finish, resend, update_learned_mode,
}
use kuksa_val_services.Controller.Thread.{ReadResult, on_frame, on_read, thread_loop}
use kuksa_val_services.Controller.Effects.{control_loop-ctx, check_motor-ctx}

-- The position of the newest call with user data, `start` if there was none.
abbrev pub reported : ℕ → List Output → ℕ
reported start [] = start
reported start (sent f ∷ os) = reported start os
reported start (called cb can_error v u ∷ os) = reported start os
reported start (called cb motor1_pos_changed v u ∷ os) = if u == 0 then reported start os else v

-- The loop runs with a callback, which has been told the current position.
pub record IsObserved (start : ℕ) (s : Seat) : Type 0 where
  pub magic : s.ctx.magic ≡ seat_ctrl_context_magic
  pub runs : s.ctx.running ≡ true
  pub listener : s.ctx.event_cb ≢ none
  pub addressed : s.ctx.event_cb_user_data ≢ 0
  pub current : reported start s.outputs ≡ s.ctx.motor1_pos

module _ (p : Platform) (start : ℕ) where
  pub send_cmd1-reported :
      (s : Seat) (d r : ℕ) → reported start (send_cmd1 p s d r).0.outputs ≡ reported start s.outputs
  unfolding send_cmd1
  send_cmd1-reported s d r = ground arith

  resend-reported : (s : Seat) → reported start (resend p s).outputs ≡ reported start s.outputs
  unfolding resend
  resend-reported s =
      let t : Seat = (send_cmd1 p s (direction_code off) 0).0 in
      ground (
        arith,
        send_cmd1-reported s (direction_code off) 0,
        send_cmd1-reported t (direction_code t.ctx.desired_direction)
            (to_u8 t.ctx.config.motor_rpm),
      )

  check_motor-reported :
      (s : Seat) → reported start (check_motor p s).outputs ≡ reported start s.outputs
  unfolding check_motor
  check_motor-reported s = ground (arith, resend-reported s)

  finish-reported : (s : Seat) → reported start (finish p s).outputs ≡ reported start s.outputs
  unfolding finish stop_movement
  finish-reported s = send_cmd1-reported s (direction_code off) 0

  end_operation-reported :
      (e : ℤ) (s : Seat) → reported start (end_operation p e s).outputs ≡ reported start s.outputs
  unfolding end_operation
  end_operation-reported e s = ground (arith, finish-reported s)

  supervise-reported :
      (s : Seat) → reported start (supervise p s).outputs ≡ reported start s.outputs
  unfolding supervise
  supervise-reported s =
      let t : Seat = (get_ts p s).1 in
      let e : ℤ = sub_ℕ (p.clock s.clock_reads) s.ctx.command_ts in
      ground (
        arith,
        end_operation-reported e (check_motor p t),
        check_motor-ctx p t,
        check_motor-reported t,
      )

  control_loop-reported :
      (s : Seat) → reported start (control_loop p s).0.outputs ≡ reported start s.outputs
  unfolding control_loop update_learned_mode
  control_loop-reported s = ground (arith, supervise-reported (update_learned_mode p s))

  control_loop-IsObserved : (s : Seat) → IsObserved start s → IsObserved start (control_loop p s).0
  control_loop-IsObserved s v = ground (arith, control_loop-ctx p s, control_loop-reported s)

  take_stat-IsObserved :
      (t : Stat) (s : Seat) → IsObserved start s → IsObserved start (take_stat p t s).0
  unfolding take_stat notify_position
  take_stat-IsObserved t s v = ground arith

  handle_secu_stat-IsObserved :
      (s : Seat) (f : CanFrame) → IsObserved start s → IsObserved start (handle_secu_stat p s f).0
  unfolding handle_secu_stat
  handle_secu_stat-IsObserved s f v = elim (Option-cases (p.stat_unpack f.payload f.can_dlc)) [
    | inl e ↦ ground arith
    | inr (t, e) ↦ ground (arith, take_stat-IsObserved t s v)
  ]

  on_frame-IsObserved :
      (f : CanFrame) (s : Seat) → IsObserved start s → IsObserved start (on_frame p f s)
  unfolding on_frame
  on_frame-IsObserved f s v = ground (
    arith,
    handle_secu_stat-IsObserved s f v,
    λ (w : IsObserved start (handle_secu_stat p s f).0).
        control_loop-IsObserved (handle_secu_stat p s f).0 w,
  )

  on_read-IsObserved :
      (r : ReadResult) (s : Seat) → IsObserved start s → IsObserved start (on_read p r s).1
  unfolding on_read
  on_read-IsObserved r s v = ground (arith, on_frame-IsObserved r.frame s v)

  -- Whatever the reader thread reads, the newest position that it has given to the callback is the
  -- position in the context, or `start` if it gave none, if that held before.
  pub thread_loop-IsObserved :
      (rs : List ReadResult) (s : Seat)
      → IsObserved start s
      → IsObserved start (thread_loop p rs s).1
  unfolding thread_loop
  thread_loop-IsObserved [] s v = v
  thread_loop-IsObserved (r ∷ rs) s v =
      let w = on_read-IsObserved r s v in
      ground (arith, w, thread_loop-IsObserved rs (on_read p r s).1 w)
