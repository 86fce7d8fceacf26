-- ===== src/Controller/Watching.antt =====
-- What the event callback learns of the motor's position during a call of seatctrl_set_position.
use kuksa_val_services.Prelude.{ℕ, zero, suc, ℤ, to_u8, ◌≡◌, List, arith}
use kuksa_val_services.Controller.Types.{Seat, Platform, direction_code, off}
use kuksa_val_services.Controller.Commands.{stop_movement}
use kuksa_val_services.Controller.Thread.{ReadResult}
use kuksa_val_services.Controller.SetPosition.{
  position_retries, set_position, move_to, stay, start_move, begin_move, wait_position, sleep,
}
use kuksa_val_services.Controller.Effects.{send_cmd1-ctx, stop_movement-ctx}
use kuksa_val_services.Controller.Observer.{
  reported, IsObserved, send_cmd1-reported, thread_loop-IsObserved,
}

module _ (p : Platform) (arrivals : ℕ → List ReadResult) (start : ℕ) where
  stop_movement-reported :
      (s : Seat) → reported start (stop_movement p s).0.outputs ≡ reported start s.outputs
  unfolding stop_movement
  stop_movement-reported s = send_cmd1-reported p start s (direction_code off) 0

  stop_movement-IsObserved :
      (s : Seat) → IsObserved start s → IsObserved start (stop_movement p s).0
  stop_movement-IsObserved s v = ground (arith, stop_movement-ctx p s, stop_movement-reported s)

  sleep-IsObserved :
      (k : ℕ) (s : Seat) → IsObserved start s → IsObserved start (sleep p arrivals k s)
  unfolding sleep
  sleep-IsObserved k s v = thread_loop-IsObserved p start (arrivals k) s v

  wait_position-IsObserved :
      (n k : ℕ) (s : Seat)
      → IsObserved start s
      → IsObserved start (wait_position p arrivals n k s).1
  unfolding wait_position
  wait_position-IsObserved zero k s v = v
  wait_position-IsObserved (suc n) k s v =
      ground
        (arith, wait_position-IsObserved n (suc k) (sleep p arrivals k s) (sleep-IsObserved k s v))

  stay-IsObserved : (s : Seat) → IsObserved start s → IsObserved start (stay p arrivals s).0
  unfolding stay
  stay-IsObserved s v = ground (arith, stop_movement-IsObserved s v)

  start_move-IsObserved :
      (d : ℕ) (s : Seat) → IsObserved start s → IsObserved start (start_move p arrivals d s).0
  unfolding start_move
  start_move-IsObserved d s v =
      let u : Seat = begin_move p arrivals d s in
      let dir : ℕ = direction_code u.ctx.desired_direction in
      let rpm : ℕ = to_u8 u.ctx.config.motor_rpm in
      ground (arith, send_cmd1-ctx p u dir rpm, send_cmd1-reported p start u dir rpm)

  move_to-IsObserved :
      (k d : ℕ) (s : Seat) → IsObserved start s → IsObserved start (move_to p arrivals k d s).0
  unfolding move_to
  move_to-IsObserved k d s v =
      let t : Seat = sleep p arrivals k (stop_movement p s).0 in
      let w : IsObserved start t =
        sleep-IsObserved k (stop_movement p s).0 (stop_movement-IsObserved s v) in
      ground (arith, stay-IsObserved t w, start_move-IsObserved d t w)

  -- Whatever a call of seatctrl_set_position does, and the reader thread reads in its sleeps, the newest
  -- position that the callback was given is the position in the context, or `start` if it was given none,
  -- if that held before.
  pub set_position-IsObserved :
      (s : Seat) (d : ℤ) → IsObserved start s → IsObserved start (set_position p arrivals s d).0
  unfolding set_position
  set_position-IsObserved s d v =
      let w : ℕ × Seat = wait_position p arrivals position_retries 0 s in
      let i : IsObserved start w.1 = wait_position-IsObserved position_retries 0 s v in
      ground (arith, move_to-IsObserved w.0 (to_u8 d) w.1 i)
