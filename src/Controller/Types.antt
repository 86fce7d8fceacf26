-- ===== src/Controller/Types.antt =====
-- seat_controller.h: error codes, enums, configuration and context; the state that the controller
-- works on, and the platform (generated CAN code, clock, socket) that it calls.
use kuksa_val_services.Prelude.{ℕ, ℤ, pos, negsuc, Bool, Option, List, ◌∷◌, String}

-- The error_t constants. EINVAL is 22 on Linux.
abbrev pub seat_ctrl_ok : ℤ
seat_ctrl_ok = pos 0

abbrev pub seat_ctrl_err : ℤ
seat_ctrl_err = negsuc 0

abbrev pub seat_ctrl_err_no_can : ℤ
seat_ctrl_err_no_can = negsuc 1

abbrev pub seat_ctrl_err_ifr : ℤ
seat_ctrl_err_ifr = negsuc 2

abbrev pub seat_ctrl_err_can_bind : ℤ
seat_ctrl_err_can_bind = negsuc 3

abbrev pub seat_ctrl_err_can_io : ℤ
seat_ctrl_err_can_io = negsuc 4

abbrev pub seat_ctrl_err_invalid : ℤ
seat_ctrl_err_invalid = negsuc 21

abbrev pub seat_ctrl_err_no_frames : ℤ
seat_ctrl_err_no_frames = negsuc 41

abbrev pub socket_invalid : ℤ
socket_invalid = negsuc 0

abbrev pub motor_pos_invalid : ℕ
motor_pos_invalid = 0xff

abbrev pub default_rpm : ℤ
default_rpm = pos 80

abbrev pub default_operation_timeout : ℤ
default_operation_timeout = pos 15000

abbrev pub seat_ctrl_context_magic : ℕ
seat_ctrl_context_magic = 0xdec0_de00

pub data SeatCtrlEvent : Type 0 where
  can_error motor1_pos_changed : SeatCtrlEvent

pub data MotorDirection : Type 0 where
  off dec inc inv : MotorDirection

-- The value of the enum, as it stands in CAN frames and in `motor1_mov_state`.
abbrev pub direction_code : MotorDirection → ℕ
direction_code off = 0
direction_code dec = 1
direction_code inc = 2
direction_code inv = 3

pub data LearningState : Type 0 where
  not_learned learned invalid : LearningState

abbrev pub learning_code : LearningState → ℕ
learning_code not_learned = 0
learning_code learned = 1
learning_code invalid = 2

pub record Config : Type 0 where
  pub can_device : Option String
  pub debug_raw : Bool
  pub debug_ctl : Bool
  pub debug_stats : Bool
  pub debug_verbose : Bool
  pub command_timeout : ℤ
  pub motor_rpm : ℤ

-- `thread_id` 0 is "no thread"; a null `event_cb` is `none`; pointers are numbers.
pub record Context : Type 0 where
  pub magic : ℕ
  pub config : Config
  pub socket : ℤ
  pub running : Bool
  pub thread_id : ℕ
  pub command_ts : ℕ
  pub desired_position : ℕ
  pub desired_direction : MotorDirection
  pub motor1_pos : ℕ
  pub motor1_mov_state : ℕ
  pub motor1_learning_state : ℕ
  pub event_cb : Option ℕ
  pub event_cb_user_data : ℕ

-- The file's static variables.
pub record Statics : Type 0 where
  pub last_ctl_pos : ℕ
  pub last_ctl_dir : ℕ
  pub learned_mode : Bool
  pub learned_mode_changed : ℤ

pub record CanFrame : Type 0 where
  pub can_id : ℕ
  pub can_dlc : ℕ
  pub payload : List ℕ

-- The fields of CAN_secu1_stat_t and CAN_secu1_cmd_1_t that the controller reads and sets.
pub record Stat : Type 0 where
  pub stat_pos : ℕ
  pub stat_mov_state : ℕ
  pub stat_learning_state : ℕ

pub record Cmd1 : Type 0 where
  pub motor1_manual_cmd : ℕ
  pub motor1_set_rpm : ℕ

-- What leaves the controller: frames on the bus, and calls of the event callback.
pub data Output : Type 0 where
  sent : CanFrame → Output
  called : ℕ → SeatCtrlEvent → ℕ → ℕ → Output

-- The context, the statics, how often the clock was read and `write` called, and the outputs, the
-- newest first.
pub record Seat : Type 0 where
  pub ctx : Context
  pub statics : Statics
  pub clock_reads : ℕ
  pub writes : ℕ
  pub outputs : List Output

-- What the controller calls and does not implement: the code that cantools generates from
-- seat_ecu.dbc (`none` is a failure code), and the operating system. `clock n` is the n-th reading
-- of the monotonic clock in milliseconds; `write n` is none if the n-th write sends the whole frame,
-- and errno if not.
pub record Platform : Type 0 where
  pub stat_frame_id : ℕ
  pub cmd_1_frame_id : ℕ
  pub stat_unpack : List ℕ → ℕ → Option Stat
  pub motor1_pos_is_in_range : ℕ → Bool
  pub motor1_mov_state_is_in_range : ℕ → Bool
  pub motor1_learning_state_is_in_range : ℕ → Bool
  pub cmd_1_pack : Cmd1 → Option (List ℕ)
  pub clock : ℕ → ℕ
  pub write : ℕ → Option ℕ
  pub eagain : ℕ
  pub eintr : ℕ
  pub enetdown : ℕ

abbrev pub emit : Output → Seat → Seat
emit o s = record s { outputs = o ∷ s.outputs }
