-- ===== src/Examples/Arrival.antt =====
-- The way of a request from the client to the motor and back, at a concrete seat.
use kuksa_val_services.Prelude.{pos, ◌≡◌, refl, true, false, List, [], ◌∷◌, arith}
use kuksa_val_services.Controller.Types.{Stat}
use kuksa_val_services.Controller.Commands.{is_ctl_running, stop_movement, send_cmd1, after_write}
use kuksa_val_services.Controller.Status.{handle_secu_stat, take_stat, notify_position}
use kuksa_val_services.Controller.ControlLoop.{
  control_loop, update_learned_mode, supervise, end_operation, check_motor, resend, finish,
}
use kuksa_val_services.Controller.Thread.{ReadResult, continues, thread_loop, on_read, on_frame}
use kuksa_val_services.Controller.SetPosition.{
  set_position, wait_position, move_to, start_move, stay, sleep,
}
use kuksa_val_services.Adjuster.Impl.{
  Adjuster, set_seat_position, to_set_result, with_seat, get_seat_position, absorb,
  seatctrl_event_cb, call_cb,
}
use kuksa_val_services.Grpc.{status_ok}
use kuksa_val_services.Service.{move_component, set_result_to_status}
use kuksa_val_services.SvcClient.{move_seat_position, wait_loop, max_polls, reached}
use kuksa_val_services.SvcClient.Arrival.{stub, asked, arrived, client_arrives}
use kuksa_val_services.Examples.{platform, arrivals, stat_read, failed_read}
use kuksa_val_services.Examples.Clients.{idle_adjuster}

-- The motor passes 25 percent, and a `read` is interrupted.
abbrev on_the_way : List ReadResult
on_the_way = stat_read 25 ∷ failed_read 4 ∷ []

abbrev at_40 : Stat
at_40 = record { stat_pos = 40; stat_mov_state = 0; stat_learning_state = 1 }

request_accepted :
    (move_seat_position (stub true platform arrivals) idle_adjuster 0 (pos 1) (pos 1) (pos 403)).1
    ≡ status_ok
unfolding move_seat_position move_component set_seat_position to_set_result set_result_to_status
    set_position wait_position move_to start_move stay sleep stop_movement send_cmd1 after_write
    thread_loop on_read on_frame handle_secu_stat take_stat notify_position control_loop
    update_learned_mode is_ctl_running with_seat
request_accepted = refl

thread_goes_on :
    (thread_loop platform on_the_way (asked true platform arrivals idle_adjuster 403).seat).0
    ≡ continues
unfolding move_seat_position move_component set_seat_position to_set_result set_result_to_status
    set_position wait_position move_to start_move stay sleep stop_movement send_cmd1 after_write
    thread_loop on_read on_frame handle_secu_stat take_stat notify_position control_loop
    update_learned_mode is_ctl_running with_seat absorb seatctrl_event_cb call_cb supervise
    end_operation check_motor resend finish
thread_goes_on = refl

abbrev settled_adjuster : Adjuster
settled_adjuster = arrived true platform arrivals idle_adjuster 403 on_the_way (stat_read 40)

client_arrives_example :
    (is_ctl_running settled_adjuster.seat.ctx ≡ false)
    × (get_seat_position settled_adjuster ≡ pos 40)
    × ((wait_loop
          (stub true platform arrivals)
          0
          (pos 1)
          (pos 1)
          (pos 403)
          max_polls
          0
          settled_adjuster).1
        ≡ reached (pos 400))
client_arrives_example =
    client_arrives true platform arrivals idle_adjuster 403 on_the_way (stat_read 40) at_40 refl
      request_accepted thread_goes_on (omega arith) (refl, refl, refl)
      (record { bounded = omega arith; not_above = omega arith; not_below = omega arith })
