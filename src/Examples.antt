-- ===== src/Examples.antt =====
-- Concrete platforms, contexts and brokers, at which the theorems are tried.
pub mod Motor
pub mod Clients
pub mod Broker
pub mod Service
pub mod Requests
pub mod Ordering
pub mod Arrival
pub mod Printing
pub mod Tools
pub mod System
pub mod Informing
use kuksa_val_services.Prelude.{
  ℕ, ℤ, pos, negsuc, Bool, true, false, leb, List, [], ◌∷◌, String, Option, none, some,
}
use kuksa_val_services.Controller.Types.{
  Seat, Context, Config, Statics, Platform, Stat, Cmd1, CanFrame, Output, inc, off,
  seat_ctrl_context_magic,
}
use kuksa_val_services.Controller.Thread.{ReadResult}
use kuksa_val_services.Controller.Lifecycle.{Environment, OpenCalls, CloseCalls, fresh_context}

abbrev pub unpack : List ℕ → ℕ → Option Stat
unpack (position ∷ mov ∷ learning ∷ rest) dlc =
    some (record { stat_pos = position; stat_mov_state = mov; stat_learning_state = learning })
unpack _ dlc = none

abbrev pub pack : Cmd1 → Option (List ℕ)
pack c = some (c.motor1_manual_cmd ∷ c.motor1_set_rpm ∷ [])

-- A reliable bus, and a clock that stands late.
abbrev pub platform : Platform
platform = record {
  stat_frame_id = 1810;
  cmd_1_frame_id = 1797;
  stat_unpack = unpack;
  motor1_pos_is_in_range = λ n. leb n 255;
  motor1_mov_state_is_in_range = λ n. leb n 3;
  motor1_learning_state_is_in_range = λ n. leb n 2;
  cmd_1_pack = pack;
  clock = λ n. 100000;
  write = λ n. none;
  eagain = 11;
  eintr = 4;
  enetdown = 100;
}

abbrev pub config : Config
config = record {
  can_device = some "can0";
  debug_raw = false;
  debug_ctl = true;
  debug_stats = true;
  debug_verbose = false;
  command_timeout = pos 15000;
  motor_rpm = pos 80;
}

abbrev pub statics : Statics
statics = record {
  last_ctl_pos = 255;
  last_ctl_dir = 0;
  learned_mode = true;
  learned_mode_changed = pos 0;
}

abbrev pub seat_with : Context → Seat
seat_with c = record { ctx = c; statics = statics; clock_reads = 0; writes = 0; outputs = [] }

-- Memory that holds no context yet.
abbrev pub blank : Seat
blank = seat_with (record (fresh_context config) { magic = 0 })

abbrev pub initialised : Seat
initialised = seat_with (fresh_context config)

-- Open, with a callback, and the motor at 20 percent.
abbrev pub idle_context : Context
idle_context = record (fresh_context config) {
  socket = pos 7;
  running = true;
  thread_id = 9;
  motor1_pos = 20;
  motor1_mov_state = 0;
  event_cb = some 1;
  event_cb_user_data = 5;
}

abbrev pub idle_seat : Seat
idle_seat = seat_with idle_context

-- On the way from 20 to 40 percent since the second 1.
abbrev pub moving_seat : Seat
moving_seat =
    seat_with
      (record idle_context { command_ts = 1000; desired_position = 40; desired_direction = inc })

abbrev pub stat_read : ℕ → ReadResult
stat_read position = record {
  cnt = pos 16;
  errno = 0;
  frame = record { can_id = 1810; can_dlc = 8; payload = position ∷ 0 ∷ 1 ∷ [] };
}

abbrev pub failed_read : ℕ → ReadResult
failed_read errno = record {
  cnt = negsuc 0;
  errno = errno;
  frame = record { can_id = 0; can_dlc = 0; payload = [] };
}

-- The motor stands at 20 percent during every sleep.
abbrev pub arrivals : ℕ → List ReadResult
arrivals k = stat_read 20 ∷ []

abbrev pub open_calls : OpenCalls
open_calls = record {
  socket_result = pos 7;
  ioctl_result = pos 0;
  ioctl_ifindex = pos 3;
  bind_result = λ i. pos 0;
  create_result = pos 0;
  new_thread = 9;
}

-- `bind` fails.
abbrev pub failing_bind : OpenCalls
failing_bind = record open_calls { bind_result = λ i. negsuc 0 }

abbrev pub close_calls : CloseCalls
close_calls = record { close_result = pos 0; self = 2; join_result = pos 0 }

abbrev pub no_environment : Environment
no_environment = record { getenv = λ name. none; atoi = λ text. pos 0 }
