-- ===== src/Controller/Invariant.antt =====
-- What holds of a context between two calls, whatever the platform answers.
use kuksa_val_services.Prelude.{
  to_u8, ℕ, zero, suc, ◌≤◌, ◌≡◌, refl, ◌⊎◌, inl, inr, ℤ, List, [], ◌∷◌, arith, Option-cases,
}
use kuksa_val_services.Controller.Types.{
  Seat, Context, Platform, CanFrame, Stat, off, inc, dec, motor_pos_invalid, direction_code,
}
use kuksa_val_services.Controller.Commands.{stop_movement, no_target}
use kuksa_val_services.Controller.Status.{handle_secu_stat, take_stat}
use kuksa_val_services.Controller.ControlLoop.{control_loop}
use kuksa_val_services.Controller.Thread.{ReadResult, on_read, thread_loop, on_frame}
use kuksa_val_services.Controller.SetPosition.{
  begin_move, position_retries, set_position, move_to, stay, start_move, wait_position, sleep,
}
use kuksa_val_services.Controller.Effects.{
  stop_movement-ctx, send_cmd1-ctx, notify_position-ctx, control_loop-ctx,
}

-- No operation is pending.
abbrev pub IsIdle : Context → Type 0
IsIdle c =
    (c.desired_position ≡ motor_pos_invalid) × (c.desired_direction ≡ off) × (c.command_ts ≡ 0)

-- An operation towards a position in percent is pending.
abbrev pub IsMoving : Context → Type 0
IsMoving c =
    (c.desired_position ≤ 100) × ((c.desired_direction ≡ inc) ⊎ (c.desired_direction ≡ dec))

pub record IsValid (c : Context) : Type 0 where
  pub position : (c.motor1_pos ≤ 100) ⊎ (c.motor1_pos ≡ motor_pos_invalid)
  pub target : IsIdle c ⊎ IsMoving c

module _ (p : Platform) where
  no_target-IsValid : (c : Context) → IsValid c → IsValid (no_target c)
  no_target-IsValid c v = record { position = v.position; target = inl (refl, refl, refl) }

  take_stat-IsValid : (t : Stat) (s : Seat) → IsValid s.ctx → IsValid (take_stat p t s).0.ctx
  unfolding take_stat
  take_stat-IsValid t s v = ground (arith, notify_position-ctx p t s)

  handle_secu_stat-IsValid :
      (s : Seat) (f : CanFrame) → IsValid s.ctx → IsValid (handle_secu_stat p s f).0.ctx
  unfolding handle_secu_stat
  handle_secu_stat-IsValid s f v = elim (Option-cases (p.stat_unpack f.payload f.can_dlc)) [
    | inl e ↦ ground arith
    | inr (t, e) ↦ ground (arith, take_stat-IsValid t s v)
  ]

  control_loop-IsValid : (s : Seat) → IsValid s.ctx → IsValid (control_loop p s).0.ctx
  control_loop-IsValid s v = ground (arith, control_loop-ctx p s)

  on_frame-IsValid : (f : CanFrame) (s : Seat) → IsValid s.ctx → IsValid (on_frame p f s).ctx
  unfolding on_frame
  on_frame-IsValid f s v =
      ground
        (arith, handle_secu_stat-IsValid s f v, control_loop-IsValid (handle_secu_stat p s f).0)

  on_read-IsValid : (r : ReadResult) (s : Seat) → IsValid s.ctx → IsValid (on_read p r s).1.ctx
  unfolding on_read
  on_read-IsValid r s v = ground (arith, on_frame-IsValid r.frame s v)

  pub thread_loop-IsValid :
      (rs : List ReadResult) (s : Seat) → IsValid s.ctx → IsValid (thread_loop p rs s).1.ctx
  unfolding thread_loop
  thread_loop-IsValid [] s v = v
  thread_loop-IsValid (r ∷ rs) s v = ground (
    arith,
    on_read-IsValid r s v,
    thread_loop-IsValid rs (on_read p r s).1 (on_read-IsValid r s v),
  )

  pub stop_movement-IsValid : (s : Seat) → IsValid s.ctx → IsValid (stop_movement p s).0.ctx
  stop_movement-IsValid s v = rw (stop_movement-ctx p s) (no_target-IsValid s.ctx v)

module _ (p : Platform) (arrivals : ℕ → List ReadResult) where
  sleep-IsValid : (k : ℕ) (s : Seat) → IsValid s.ctx → IsValid (sleep p arrivals k s).ctx
  unfolding sleep
  sleep-IsValid k s v = thread_loop-IsValid p (arrivals k) s v

  wait_position-IsValid :
      (n k : ℕ) (s : Seat) → IsValid s.ctx → IsValid (wait_position p arrivals n k s).1.ctx
  unfolding wait_position
  wait_position-IsValid zero k s v = v
  wait_position-IsValid (suc n) k s v =
      ground (arith, wait_position-IsValid n (suc k) (sleep p arrivals k s) (sleep-IsValid k s v))

  stay-IsValid : (s : Seat) → IsValid s.ctx → IsValid (stay p arrivals s).0.ctx
  unfolding stay
  stay-IsValid s v = ground (arith, stop_movement-IsValid p s v, no_target-IsValid p s.ctx v)

  start_move-IsValid :
      (d : ℕ) (s : Seat) → d ≤ 100 → IsValid s.ctx → IsValid (start_move p arrivals d s).0.ctx
  unfolding start_move
  start_move-IsValid d s h v =
      let u : Seat = begin_move p arrivals d s in
      ground (
        arith,
        send_cmd1-ctx p u (direction_code u.ctx.desired_direction) (to_u8 u.ctx.config.motor_rpm),
      )

  move_to-IsValid :
      (k d : ℕ) (s : Seat) → d ≤ 100 → IsValid s.ctx → IsValid (move_to p arrivals k d s).0.ctx
  unfolding move_to
  move_to-IsValid k d s h v =
      let t : Seat = sleep p arrivals k (stop_movement p s).0 in
      let w : IsValid t.ctx = sleep-IsValid k (stop_movement p s).0 (stop_movement-IsValid p s v) in
      ground (arith, stay-IsValid t w, start_move-IsValid d t h w)

  pub set_position-IsValid :
      (s : Seat) (d : ℤ) → IsValid s.ctx → IsValid (set_position p arrivals s d).0.ctx
  unfolding set_position
  set_position-IsValid s d v =
      let w : ℕ × Seat = wait_position p arrivals position_retries 0 s in
      ground (
        arith,
        wait_position-IsValid position_retries 0 s v,
        λ (h : to_u8 d ≤ 100) (y : IsValid w.1.ctx). move_to-IsValid w.0 (to_u8 d) w.1 h y,
      )
