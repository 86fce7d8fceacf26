-- ===== src/Controller/Setup.antt =====
-- What no operation on an initialised context changes: the magic number and the configuration.
use kuksa_val_services.Prelude.{
  ℕ, zero, suc, ℤ, to_u8, ◌≡◌, ◌∙◌, refl, List, [], ◌∷◌, Option, arith, Option-cases, inl, inr,
}
use kuksa_val_services.Controller.Types.{Seat, Context, Config, Platform, CanFrame, direction_code}
use kuksa_val_services.Controller.Commands.{stop_movement, set_event_callback}
use kuksa_val_services.Controller.Status.{handle_secu_stat, take_stat}
use kuksa_val_services.Controller.ControlLoop.{control_loop}
use kuksa_val_services.Controller.Thread.{ReadResult, on_frame, on_read, thread_loop}
use kuksa_val_services.Controller.SetPosition.{
  position_retries, set_position, move_to, stay, start_move, begin_move, wait_position, sleep,
}
use kuksa_val_services.Controller.Lifecycle.{OpenCalls, CloseCalls, open_ctx, close_ctx}
use kuksa_val_services.Controller.Effects.{
  stop_movement-ctx, send_cmd1-ctx, notify_position-ctx, control_loop-ctx,
}
use kuksa_val_services.Controller.Reach.{
  Step, opens, starts, reads, subscribes, moves, stops, closes, Reach, here, next,
}

abbrev pub setup : Context → ℕ × Config
setup c = (c.magic, c.config)

module _ (p : Platform) where
  handle_secu_stat-setup :
      (s : Seat) (f : CanFrame) → setup (handle_secu_stat p s f).0.ctx ≡ setup s.ctx
  unfolding handle_secu_stat take_stat
  handle_secu_stat-setup s f = elim (Option-cases (p.stat_unpack f.payload f.can_dlc)) [
    | inl e ↦ ground arith
    | inr (t, e) ↦ ground (arith, notify_position-ctx p t s)
  ]

  control_loop-setup : (s : Seat) → setup (control_loop p s).0.ctx ≡ setup s.ctx
  control_loop-setup s = ground (arith, control_loop-ctx p s)

  on_read-setup : (r : ReadResult) (s : Seat) → setup (on_read p r s).1.ctx ≡ setup s.ctx
  unfolding on_read on_frame
  on_read-setup r s =
      ground (
        arith,
        handle_secu_stat-setup s r.frame,
        control_loop-setup (handle_secu_stat p s r.frame).0,
      )

  pub thread_loop-setup :
      (rs : List ReadResult) (s : Seat) → setup (thread_loop p rs s).1.ctx ≡ setup s.ctx
  unfolding thread_loop
  thread_loop-setup [] s = refl
  thread_loop-setup (r ∷ rs) s =
      ground (arith, on_read-setup r s, thread_loop-setup rs (on_read p r s).1)

  pub stop_movement-setup : (s : Seat) → setup (stop_movement p s).0.ctx ≡ setup s.ctx
  stop_movement-setup s = rw (stop_movement-ctx p s) refl

module _ (p : Platform) (arrivals : ℕ → List ReadResult) where
  sleep-setup : (k : ℕ) (s : Seat) → setup (sleep p arrivals k s).ctx ≡ setup s.ctx
  unfolding sleep
  sleep-setup k s = thread_loop-setup p (arrivals k) s

  wait_position-setup :
      (n k : ℕ) (s : Seat) → setup (wait_position p arrivals n k s).1.ctx ≡ setup s.ctx
  unfolding wait_position
  wait_position-setup zero k s = refl
  wait_position-setup (suc n) k s =
      ground (arith, sleep-setup k s, wait_position-setup n (suc k) (sleep p arrivals k s))

  stay-setup : (s : Seat) → setup (stay p arrivals s).0.ctx ≡ setup s.ctx
  unfolding stay
  stay-setup s = ground (arith, stop_movement-setup p s)

  start_move-setup : (d : ℕ) (s : Seat) → setup (start_move p arrivals d s).0.ctx ≡ setup s.ctx
  unfolding start_move
  start_move-setup d s =
      let u : Seat = begin_move p arrivals d s in
      rw (send_cmd1-ctx p u (direction_code u.ctx.desired_direction) (to_u8 u.ctx.config.motor_rpm))
        refl

  move_to-setup : (k d : ℕ) (s : Seat) → setup (move_to p arrivals k d s).0.ctx ≡ setup s.ctx
  unfolding move_to
  move_to-setup k d s =
      let t : Seat = sleep p arrivals k (stop_movement p s).0 in
      ground (
        arith,
        stop_movement-setup p s,
        sleep-setup k (stop_movement p s).0,
        stay-setup t,
        start_move-setup d t,
      )

  pub set_position-setup :
      (s : Seat) (d : ℤ) → setup (set_position p arrivals s d).0.ctx ≡ setup s.ctx
  unfolding set_position
  set_position-setup s d =
      let w : ℕ × Seat = wait_position p arrivals position_retries 0 s in
      ground (arith, wait_position-setup position_retries 0 s, move_to-setup w.0 (to_u8 d) w.1)

open_ctx-setup : (o : OpenCalls) (s : Seat) → setup (open_ctx o s).0.ctx ≡ setup s.ctx
unfolding open_ctx
open_ctx-setup o s = ground arith

close_ctx-setup : (o : CloseCalls) (s : Seat) → setup (close_ctx o s).0.ctx ≡ setup s.ctx
unfolding close_ctx
close_ctx-setup o s = ground arith

set_event_callback-setup :
    (s : Seat) (cb : Option ℕ) (n : ℕ) → setup (set_event_callback s cb n).0.ctx ≡ setup s.ctx
unfolding set_event_callback
set_event_callback-setup s cb n = ground arith

Step-setup : {p : Platform} {s t : Seat} → Step p s t → setup t.ctx ≡ setup s.ctx
Step-setup {p} {s} (opens o) = open_ctx-setup o s
Step-setup {p} {s} starts = refl
Step-setup {p} {s} (reads rs) = thread_loop-setup p rs s
Step-setup {p} {s} (subscribes cb n) = set_event_callback-setup s cb n
Step-setup {p} {s} (moves arrivals d) = set_position-setup p arrivals s d
Step-setup {p} {s} stops = stop_movement-setup p s
Step-setup {p} {s} (closes o) = close_ctx-setup o s

-- No call and no frame changes the magic number or the configuration of a context.
pub Reach-setup : {p : Platform} {s t : Seat} → Reach p s t → setup t.ctx ≡ setup s.ctx
Reach-setup here = refl
Reach-setup (next r st) = Step-setup st ∙ Reach-setup r
