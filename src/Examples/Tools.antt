-- ===== src/Examples/Tools.antt =====
-- The theorems on the client program, the test program and the sockets, at concrete inputs.
use kuksa_val_services.Prelude.{pos, ◌≡◌, true, [], ◌∷◌, arith}
use kuksa_val_services.Controller.Types.{seat_ctrl_err_invalid, Seat}
use kuksa_val_services.Controller.Lifecycle.{open_ctx}
use kuksa_val_services.Controller.Invariant.{IsValid}
use kuksa_val_services.Controller.Sessions.{IsClosed}
use kuksa_val_services.Adjuster.Interface.{SeatAdjuster}
use kuksa_val_services.Adjuster.Impl.{Adjuster, adjuster}
use kuksa_val_services.SvcClient.{wait_loop, max_polls}
use kuksa_val_services.SvcClient.Waiting.{Ended, wait_loop_ends}
use kuksa_val_services.SvcClient.Moves.{service_stub}
use kuksa_val_services.ControllerTool.{Session, tool_run, tool_config}
use kuksa_val_services.ControllerTool.Run.{tool_run-IsClosed}
use kuksa_val_services.Examples.{
  platform, blank, initialised, stat_read, arrivals, open_calls, close_calls, no_environment,
}
use kuksa_val_services.Examples.Clients.{idle_adjuster}

abbrev motor : SeatAdjuster Adjuster
motor = adjuster true platform arrivals

-- No status has arrived.
abbrev silent_adjuster : Adjuster
silent_adjuster = record idle_adjuster { seat = initialised }

wait_loop_ends_example :
    Ended
      (service_stub motor)
      0
      (pos 1)
      (pos 1)
      (pos 203)
      max_polls
      idle_adjuster
      (wait_loop (service_stub motor) 0 (pos 1) (pos 1) (pos 203) max_polls 0 idle_adjuster)
wait_loop_ends_example =
    wait_loop_ends (service_stub motor) 0 (pos 1) (pos 1) (pos 203) idle_adjuster

abbrev session : Session
session = record {
  open_calls_1 = open_calls;
  open_calls_2 = open_calls;
  close_calls = close_calls;
  sleep_reads = λ k. stat_read 20 ∷ stat_read 21 ∷ [];
  call_reads = λ k i. stat_read 30 ∷ [];
  pos_cb = 4;
}

abbrev last_seat : Seat
last_seat = tool_run platform no_environment ("seatctrl" ∷ "can1" ∷ []) session blank

tool_run-IsClosed_example :
    (open_ctx open_calls blank ≡ (blank, seat_ctrl_err_invalid))
    × IsClosed last_seat.ctx
    × IsValid last_seat.ctx
    × (last_seat.ctx.config ≡ tool_config no_environment ("seatctrl" ∷ "can1" ∷ []))
tool_run-IsClosed_example =
    tool_run-IsClosed platform no_environment ("seatctrl" ∷ "can1" ∷ []) session blank
      (λ e. ground arith)
