-- ===== src/Examples/Clients.antt =====
-- The theorems on the adjuster, the service, the subscriber and the client, at concrete states.
use kuksa_val_services.Prelude.{
  ◌≢◌, ℤ, pos, ◌≡◌, ◌≤◌, ◌≤ℤ◌, ◌⊎◌, inl, refl, true, false, List, [], ◌∷◌, none, some, arith,
  replicate,
}
use kuksa_val_services.Grpc.{StatusCode}
use kuksa_val_services.Controller.Commands.{get_position}
use kuksa_val_services.Controller.Invariant.{IsValid}
use kuksa_val_services.Adjuster.Interface.{SeatAdjuster, seat_position_invalid}
use kuksa_val_services.Adjuster.Impl.{
  Adjuster, adjuster, get_seat_position, set_seat_position, on_reads, subscribe_position, construct,
}
use kuksa_val_services.Adjuster.Results.{
  Expected, IsInformed, get_seat_position-range, set_seat_position-Expected, on_reads-told,
}
use kuksa_val_services.Adjuster.Telling.{last_fed}
use kuksa_val_services.Adjuster.Lifetime.{started, construct-ready}
use kuksa_val_services.Service.{
  SeatState, SeatLocation, move, current_position, set_result_to_status, reply_position,
}
use kuksa_val_services.Service.Requests.{Moved, move-Moved, move-current_position}
use kuksa_val_services.Subscriber.{
  uint32, string, EntryUpdate, Subscriber, Attempt, on_responses, run_start, run_loop,
}
use kuksa_val_services.Subscriber.Targets.{ask_all, on_responses-all_targets}
use kuksa_val_services.Subscriber.Attempts.{run_loop_gives_up}
use kuksa_val_services.Examples.{
  platform, blank, idle_context, idle_seat, stat_read, arrivals, open_calls, no_environment,
}
use kuksa_val_services.Examples.Motor.{open_calls-AllSucceed}

-- An adjuster whose subscriber 3 knows the position of 20 percent.
abbrev pub idle_adjuster : Adjuster
idle_adjuster = record {
  seat = idle_seat;
  cb = some 3;
  fed = (3, pos 20) ∷ [];
  bus = [];
  exited = none;
}

idle_context-IsValid : IsValid idle_context
idle_context-IsValid = record { position = inl (omega arith); target = inl (refl, refl, refl) }

get_seat_position-range_example :
    (get_seat_position idle_adjuster ≡ pos 20) × ((true ≡ false) ⊎ (20 ≤ 100))
get_seat_position-range_example = get_seat_position-range idle_adjuster idle_context-IsValid

set_seat_position-Expected_example :
    Expected (set_seat_position true platform arrivals idle_adjuster (pos 40)).1
set_seat_position-Expected_example =
    set_seat_position-Expected true platform arrivals idle_adjuster 40 refl (omega arith)

pub idle_adjuster-IsInformed : IsInformed true idle_adjuster
idle_adjuster-IsInformed = record {
  quiet = refl;
  runs = refl;
  magic = refl;
  listener = λ e. ground arith;
  addressed = λ e. ground arith;
  subscriber = λ e. ground arith;
  told = refl;
}

abbrev pub after_reads : Adjuster
after_reads = on_reads true platform (stat_read 21 ∷ stat_read 22 ∷ []) idle_adjuster

on_reads-told_example :
    IsInformed true after_reads
    × (last_fed seat_position_invalid after_reads.fed ≡ get_seat_position after_reads)
on_reads-told_example =
    on_reads-told true platform (stat_read 21 ∷ stat_read 22 ∷ []) idle_adjuster
      idle_adjuster-IsInformed

abbrev built : Adjuster
built = construct true 5 1 no_environment open_calls "can0" blank

construct-ready_example :
    (built.exited ≡ none)
    × (built.seat.ctx.socket ≡ pos 7)
    × (built.seat.ctx.config.can_device ≡ some "can0")
    × (pos 1 ≤ℤ built.seat.ctx.config.motor_rpm)
    × (built.seat.ctx.config.motor_rpm ≤ℤ pos 254)
    × IsValid built.seat.ctx
    × IsInformed true (subscribe_position (started built) (some 3))
construct-ready_example =
    construct-ready true 5 1 3 no_environment open_calls "can0" blank open_calls-AllSucceed
      (λ e. ground arith) refl

abbrev real_adjuster : SeatAdjuster Adjuster
real_adjuster = adjuster true platform arrivals

abbrev driver : SeatLocation
driver = record { row = 1; index = 1 }

abbrev pub driver_at : ℤ → SeatState
driver_at base = record {
  location = driver;
  position = record (reply_position base) { base = base };
}

move-Moved_example :
    Moved real_adjuster idle_adjuster
      (driver_at (pos 400))
      (move real_adjuster idle_adjuster (driver_at (pos 400)))
move-Moved_example = move-Moved real_adjuster idle_adjuster (driver_at (pos 400))

abbrev reported_seat : SeatState
reported_seat = record { location = driver; position = reply_position (pos 20) }

move-current_position_example : move real_adjuster idle_adjuster reported_seat ≡ (
  (real_adjuster.set_seat_position idle_adjuster (pos 20)).0,
  set_result_to_status (real_adjuster.set_seat_position idle_adjuster (pos 20)).1,
)
move-current_position_example =
    move-current_position real_adjuster idle_adjuster driver reported_seat 20
      (unfold get_seat_position get_position in refl) (omega arith)
      (unfold current_position get_seat_position get_position in refl)

-- Updates of the path and of another one.
abbrev updates : List EntryUpdate
updates =
    record { path = "Seat.Position"; actuator_target = uint32 444 }
    ∷ record { path = "Seat.Height"; actuator_target = uint32 100 }
    ∷ record { path = "Seat.Position"; actuator_target = string }
    ∷ record { path = "Seat.Position"; actuator_target = uint32 1001 }
    ∷ []

on_responses-all_targets_example :
    on_responses real_adjuster "Seat.Position" (updates ∷ []) idle_adjuster
    ≡ ask_all real_adjuster (444 ∷ []) idle_adjuster
on_responses-all_targets_example =
    on_responses-all_targets real_adjuster "Seat.Position" (updates ∷ []) idle_adjuster

abbrev subscriber : Subscriber Adjuster
subscriber = record {
  adjuster_state = idle_adjuster;
  seat_pos_name = "Seat.Position";
  running = false;
  failures = 0;
}

abbrev pub unknown_datapoint : Attempt
unknown_datapoint = record { connects = true; responses = []; finish = StatusCode.not_found }

misses_ok : unknown_datapoint.finish ≢ StatusCode.ok
misses_ok = λ e. ground arith

run_loop_gives_up_example :
    (run_loop real_adjuster (replicate 5 unknown_datapoint) (run_start subscriber)).running ≡ false
run_loop_gives_up_example =
    run_loop_gives_up real_adjuster (replicate 5 unknown_datapoint) subscriber
      (misses_ok, (misses_ok, (misses_ok, (misses_ok, (misses_ok, tt)))))
