-- ===== src/Examples/Service.antt =====
-- The theorems on the data feeder, the CAN helpers and the start of the service, at concrete inputs.
use kuksa_val_services.Prelude.{
  zero, ℕ, pos, ◌*◌, ◌%◌, ◌<◌, ◌≡◌, List, ◌↔◌, refl, Bool, true, [], ◌∷◌, some, arith,
}
use kuksa_val_services.Prelude.Dict.{String_eq}
use kuksa_val_services.Adjuster.Impl.{set_seat_position, to_set_result, with_seat, adjuster}
use kuksa_val_services.Controller.Commands.{is_ctl_running, stop_movement, send_cmd1, after_write}
use kuksa_val_services.Controller.Status.{handle_secu_stat, take_stat, notify_position}
use kuksa_val_services.Controller.ControlLoop.{control_loop, update_learned_mode}
use kuksa_val_services.Controller.Thread.{thread_loop, on_read, on_frame}
use kuksa_val_services.Can.{
  Frame, RawFrame, bcm_send_frame, run_forever, message, rx_changed, data_changed, timer,
}
use kuksa_val_services.Can.Frames.{run_forever-bcm_send_frame, timer_exact, microseconds, IsNormal}
use kuksa_val_services.Main.{Options}
use kuksa_val_services.Examples.{platform, arrivals}
use kuksa_val_services.Grpc.{status_ok}
use kuksa_val_services.Controller.SetPosition.{
  set_position, wait_position, move_to, start_move, stay, sleep,
}
use kuksa_val_services.SvcClient.{move_seat_position, to_u32}
use kuksa_val_services.SvcClient.Moves.{service_stub}
use kuksa_val_services.SvcClient.Commands.{move_seat_position-Served}
use kuksa_val_services.Service.{move_component, set_result_to_status}
use kuksa_val_services.Service.Percent.{IsNearest}
use kuksa_val_services.Service.Motor.{Served}
use kuksa_val_services.Adjuster.Interface.{SetResult}
use kuksa_val_services.Adjuster.Impl.{Adjuster, absorb, seatctrl_event_cb, call_cb}
use kuksa_val_services.Feeder.State.{new_feeder}
use kuksa_val_services.Feeder.Run.{at, connecting}
use kuksa_val_services.Main.{Threads}
use kuksa_val_services.Subscriber.{EntryUpdate, uint32}
use kuksa_val_services.Subscriber.Targets.{ask_all}
use kuksa_val_services.Subscriber.Motor.{motor_adjuster}
use kuksa_val_services.System.{adjuster_of, on_system_event, responds}
use kuksa_val_services.System.Targets.{target-Served}
use kuksa_val_services.Examples.Clients.{idle_adjuster}

-- The broker asks for two positions.
abbrev two_targets : List EntryUpdate
two_targets =
    record { path = "Seat.Position"; actuator_target = uint32 300 }
    ∷ record { path = "Other"; actuator_target = uint32 7 }
    ∷ record { path = "Seat.Position"; actuator_target = uint32 444 }
    ∷ []

abbrev serving : Threads Adjuster
serving = record {
  feeder_thread = at connecting (new_feeder []);
  subscriber_thread = record {
    adjuster_state = idle_adjuster;
    seat_pos_name = "Seat.Position";
    running = true;
    failures = 0;
  };
}

target_moves :
    (set_seat_position true platform arrivals
      (ask_all (motor_adjuster true platform arrivals) (300 ∷ []) idle_adjuster)
      (pos 44)).1
    ≡ SetResult.ok
unfolding set_seat_position to_set_result set_position wait_position move_to start_move stay sleep
    stop_movement send_cmd1 after_write thread_loop on_read on_frame handle_secu_stat take_stat
    notify_position control_loop update_learned_mode is_ctl_running with_seat absorb
    seatctrl_event_cb call_cb
target_moves = refl

target-Served_example :
    IsNearest 444 44
    × Served platform 44 (
        adjuster_of
          (on_system_event true platform "Seat.Position" (responds arrivals two_targets) serving))
target-Served_example =
    target-Served true platform "Seat.Position" arrivals two_targets (300 ∷ []) 444 serving refl
      target_moves

client_moves :
    (move_seat_position
      (service_stub (adjuster true platform arrivals))
      idle_adjuster
      0
      (pos 1)
      (pos 1)
      (pos 200)).1
    ≡ status_ok
unfolding move_seat_position move_component set_seat_position to_set_result set_result_to_status
    set_position wait_position move_to start_move stay sleep stop_movement send_cmd1 after_write
    thread_loop on_read on_frame handle_secu_stat take_stat notify_position control_loop
    update_learned_mode is_ctl_running with_seat
client_moves = refl

move_seat_position-Served_example :
    (zero ≡ zero)
    × (to_u32 (pos 1) ≡ 1)
    × (to_u32 (pos 1) ≡ 1)
    × (b : ℕ) × (n : ℕ) × (pos 200 ≡ pos b)
    × IsNearest b n
    × Served platform n
        (move_seat_position
          (service_stub (adjuster true platform arrivals))
          idle_adjuster
          0
          (pos 1)
          (pos 1)
          (pos 200)).0
move_seat_position-Served_example =
    move_seat_position-Served true platform arrivals idle_adjuster 0 (pos 1) (pos 1) (pos 200)
      client_moves

abbrev frame : Frame
frame = record { can_id = 1797; data_bytes = 1 ∷ 80 ∷ 0 ∷ [] }

run_forever-bcm_send_frame_example :
    (raw : RawFrame) × (ok : Bool) × (bcm_send_frame (pos 72) frame ≡ some (raw, ok))
    × (run_forever (message rx_changed raw ∷ []) ≡ (data_changed, frame) ∷ [])
run_forever-bcm_send_frame_example = run_forever-bcm_send_frame frame (pos 72) (omega arith)

timer_exact_example :
    ((microseconds (timer (pos 1500)) ≡ 1500 * 1000) ↔ (1500 < 1000000))
    × (IsNormal (timer (pos 1500)) ↔ (1500 % 1000000 < 1000))
timer_exact_example = timer_exact 1500

abbrev pub options : Options
options = record {
  can_if_name = "can0";
  listen_address = "localhost";
  port = "50051";
  broker_addr = "localhost:55555";
  vss_4 = true;
}
