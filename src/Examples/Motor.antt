-- ===== src/Examples/Motor.antt =====
-- The theorems on the controller, at concrete contexts.
use kuksa_val_services.Prelude.{pos, ◌≡◌, ◌↔◌, refl, inl, inr, true, false, [], ◌∷◌, some, arith}
use kuksa_val_services.Controller.Types.{
  Seat, Stat, called, can_error, seat_ctrl_ok, seat_ctrl_context_magic,
}
use kuksa_val_services.Controller.Commands.{call_event_cb, is_ctl_running}
use kuksa_val_services.Controller.ControlLoop.{control_loop}
use kuksa_val_services.Controller.Thread.{breaks, thread_loop, thread_start}
use kuksa_val_services.Controller.SetPosition.{set_position}
use kuksa_val_services.Controller.Lifecycle.{init_ctx, open_ctx, has_device}
use kuksa_val_services.Controller.Effects.{control_loop-ctx}
use kuksa_val_services.Controller.Invariant.{IsValid}
use kuksa_val_services.Controller.Outcomes.{Answer, LastSent, set_position-Answer}
use kuksa_val_services.Controller.Reach.{
  here, next, opens, starts, reads, moves, init_ctx-Reach-IsValid,
}
use kuksa_val_services.Controller.Operation.{view, progress, loop_time, view-control_loop}
use kuksa_val_services.Controller.Idle.{
  frames, IsStatus, IsLate, thread_loop_idle, thread_loop_late,
}
use kuksa_val_services.Controller.Stopping.{IsReliable, control_loop-LastSent}
use kuksa_val_services.Controller.Arriving.{HasArrived, HasStopped, thread_loop_arrives}
use kuksa_val_services.Controller.Reading.{thread_loop_error}
use kuksa_val_services.Controller.Sessions.{IsClosed, AllSucceed, open_ctx-ok}
use kuksa_val_services.Examples.{
  platform, config, blank, initialised, idle_seat, moving_seat, stat_read, failed_read, arrivals,
  open_calls,
}

abbrev reached : Seat
reached =
    (set_position platform arrivals
      (thread_loop platform (stat_read 20 ∷ [])
        (thread_start (open_ctx open_calls (init_ctx blank config).0).0)).1
      (pos 40)).0

init_ctx-Reach-IsValid_example : IsValid reached.ctx
init_ctx-Reach-IsValid_example =
    init_ctx-Reach-IsValid platform blank reached config (unfold init_ctx in refl) (
      next (next (next (next here (opens open_calls)) starts) (reads (stat_read 20 ∷ [])))
        (moves arrivals (pos 40)))

set_position-Answer_example : Answer platform arrivals idle_seat (pos 40)
set_position-Answer_example = set_position-Answer platform arrivals idle_seat (pos 40)

view-control_loop_example :
    view (control_loop platform moving_seat).0.ctx
    ≡ progress (loop_time platform moving_seat) (pos 15000) 20 0 (view moving_seat.ctx)
view-control_loop_example = view-control_loop platform moving_seat

stat_read-IsStatus : IsStatus platform (stat_read 20).frame
stat_read-IsStatus =
    (refl, record { stat_pos = 20; stat_mov_state = 0; stat_learning_state = 1 }, refl, refl)

moving_seat-IsLate : IsLate platform moving_seat
moving_seat-IsLate k = ground arith

thread_loop_late_example :
    is_ctl_running (thread_loop platform (stat_read 20 ∷ stat_read 21 ∷ []) moving_seat).1.ctx
    ≡ false
thread_loop_late_example =
    thread_loop_late platform (stat_read 20) (stat_read 21 ∷ []) moving_seat refl (omega arith)
      stat_read-IsStatus moving_seat-IsLate

thread_loop_idle_example :
    (is_ctl_running (thread_loop platform (stat_read 20 ∷ []) idle_seat).1.ctx ≡ false)
    × (frames (thread_loop platform (stat_read 20 ∷ []) idle_seat).1.outputs
        ≡ frames idle_seat.outputs)
thread_loop_idle_example =
    thread_loop_idle platform (stat_read 20 ∷ []) idle_seat (unfold is_ctl_running in refl)

platform-IsReliable : IsReliable platform
platform-IsReliable = record { writes_succeed = λ n. refl; packs_succeed = λ c e. ground arith }

abbrev stat_of_40 : Stat
stat_of_40 = record { stat_pos = 40; stat_mov_state = 0; stat_learning_state = 1 }

moving_seat-HasArrived : HasArrived moving_seat.ctx stat_of_40
moving_seat-HasArrived = record { known = λ e. omega arith; there = inl (refl, omega arith) }

thread_loop_arrives_example :
    HasStopped platform
      (thread_loop platform (stat_read 40 ∷ stat_read 41 ∷ failed_read 4 ∷ []) moving_seat).1
thread_loop_arrives_example =
    thread_loop_arrives platform (stat_read 40) (stat_read 41 ∷ failed_read 4 ∷ []) moving_seat
      stat_of_40 platform-IsReliable refl (unfold is_ctl_running in refl) (omega arith)
      (refl, refl, refl) moving_seat-HasArrived (inr (inl refl))

moving_seat_ends : is_ctl_running (control_loop platform moving_seat).0.ctx ≡ false
unfolding is_ctl_running
moving_seat_ends = ground (arith, control_loop-ctx platform moving_seat)

control_loop-LastSent_example : LastSent platform 0 0 (control_loop platform moving_seat).0
control_loop-LastSent_example =
    control_loop-LastSent platform moving_seat platform-IsReliable (λ e. ground arith)
      (unfold is_ctl_running in refl) moving_seat_ends

thread_loop_error_example : thread_loop platform (failed_read 100 ∷ stat_read 20 ∷ []) idle_seat ≡ (
  breaks,
  call_event_cb (some 1) idle_seat (λ t f. called f can_error 100 t.ctx.event_cb_user_data),
)
thread_loop_error_example =
    thread_loop_error platform (failed_read 100) (stat_read 20 ∷ []) idle_seat refl (omega arith)
      (λ e. omega arith) (λ e. omega arith)

open_ctx-ok_example : ((open_ctx open_calls initialised).1 ≡ seat_ctrl_ok) ↔ (
    (initialised.ctx.magic ≡ seat_ctrl_context_magic)
    × (has_device initialised.ctx ≡ true)
    × IsClosed initialised.ctx
    × AllSucceed open_calls)
open_ctx-ok_example = open_ctx-ok open_calls initialised

pub open_calls-AllSucceed : AllSucceed open_calls
open_calls-AllSucceed = record { socket_ok = omega arith; bind_ok = omega arith; create_ok = refl }
