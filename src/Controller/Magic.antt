-- ===== src/Controller/Magic.antt =====
-- seat_controller.cc: a call or a frame never takes the magic number from a context that is in use.
use kuksa_val_services.Prelude.{
  ℕ, zero, suc, ℤ, ◌≡◌, refl, List, [], ◌∷◌, arith, Option-cases, inl, inr, to_u8,
}
use kuksa_val_services.Controller.Types.{Seat, Platform, CanFrame, direction_code}
use kuksa_val_services.Controller.Commands.{stop_movement}
use kuksa_val_services.Controller.Status.{handle_secu_stat, take_stat}
use kuksa_val_services.Controller.ControlLoop.{control_loop}
use kuksa_val_services.Controller.Thread.{ReadResult, on_frame, on_read, thread_loop}
use kuksa_val_services.Controller.SetPosition.{
  set_position, wait_position, move_to, start_move, stay, sleep, begin_move, position_retries,
}
use kuksa_val_services.Controller.Effects.{
  control_loop-ctx, notify_position-ctx, stop_movement-ctx, send_cmd1-ctx,
}

module _ (p : Platform) where
  handle_secu_stat-magic :
      (s : Seat) (f : CanFrame) → (handle_secu_stat p s f).0.ctx.magic ≡ s.ctx.magic
  unfolding handle_secu_stat take_stat
  handle_secu_stat-magic s f = elim (Option-cases (p.stat_unpack f.payload f.can_dlc)) [
    | inl e ↦ ground arith
    | inr (t, e) ↦ ground (arith, notify_position-ctx p t s)
  ]

  control_loop-magic : (s : Seat) → (control_loop p s).0.ctx.magic ≡ s.ctx.magic
  control_loop-magic s = ground (arith, control_loop-ctx p s)

  on_frame-magic : (f : CanFrame) (s : Seat) → (on_frame p f s).ctx.magic ≡ s.ctx.magic
  unfolding on_frame
  on_frame-magic f s =
      ground (arith, handle_secu_stat-magic s f, control_loop-magic (handle_secu_stat p s f).0)

  on_read-magic : (r : ReadResult) (s : Seat) → (on_read p r s).1.ctx.magic ≡ s.ctx.magic
  unfolding on_read
  on_read-magic r s = ground (arith, on_frame-magic r.frame s)

  -- The reader thread leaves the magic number alone.
  pub thread_loop-magic :
      (rs : List ReadResult) (s : Seat) → (thread_loop p rs s).1.ctx.magic ≡ s.ctx.magic
  unfolding thread_loop
  thread_loop-magic [] s = refl
  thread_loop-magic (r ∷ rs) s =
      ground (arith, on_read-magic r s, thread_loop-magic rs (on_read p r s).1)

  module _ (arrivals : ℕ → List ReadResult) where
    sleep-magic : (k : ℕ) (s : Seat) → (sleep p arrivals k s).ctx.magic ≡ s.ctx.magic
    unfolding sleep
    sleep-magic k s = thread_loop-magic (arrivals k) s

    wait_position-magic :
        (n k : ℕ) (s : Seat) → (wait_position p arrivals n k s).1.ctx.magic ≡ s.ctx.magic
    unfolding wait_position
    wait_position-magic zero k s = refl
    wait_position-magic (suc n) k s =
        ground (arith, sleep-magic k s, wait_position-magic n (suc k) (sleep p arrivals k s))

    stay-magic : (s : Seat) → (stay p arrivals s).0.ctx.magic ≡ s.ctx.magic
    unfolding stay
    stay-magic s = ground (arith, stop_movement-ctx p s)

    start_move-magic : (d : ℕ) (s : Seat) → (start_move p arrivals d s).0.ctx.magic ≡ s.ctx.magic
    unfolding start_move
    start_move-magic d s =
        let u : Seat = begin_move p arrivals d s in
        ground (
          arith,
          send_cmd1-ctx p u (direction_code u.ctx.desired_direction) (to_u8 u.ctx.config.motor_rpm),
        )

    move_to-magic : (k d : ℕ) (s : Seat) → (move_to p arrivals k d s).0.ctx.magic ≡ s.ctx.magic
    unfolding move_to
    move_to-magic k d s =
        let t : Seat = sleep p arrivals k (stop_movement p s).0 in
        let slept = sleep-magic k (stop_movement p s).0 in
        ground (arith, slept, stop_movement-ctx p s, stay-magic t, start_move-magic d t)

    -- So does a call of seatctrl_set_position.
    pub set_position-magic :
        (s : Seat) (d : ℤ) → (set_position p arrivals s d).0.ctx.magic ≡ s.ctx.magic
    unfolding set_position
    set_position-magic s d =
        let w : ℕ × Seat = wait_position p arrivals position_retries 0 s in
        let waited = wait_position-magic position_retries 0 s in
        ground (arith, waited, move_to-magic w.0 (to_u8 d) w.1)
