-- ===== src/ControllerTool.antt =====
-- seat_service/src/lib/seat_adjuster/seat_controller/main.cc: the stand-alone test program of the
-- controller. What it prints is left out, but for the codes and positions that it prints.
pub mod Run
use kuksa_val_services.Prelude.{
  ℕ, ℤ, pos, ◌==ℤ◌, Bool, true, false, List, [], ◌∷◌, Option, none, some, String, if◌then◌else◌,
}
use kuksa_val_services.Controller.Types.{
  Seat, Context, Config, Platform, seat_ctrl_ok, default_operation_timeout, default_rpm,
}
use kuksa_val_services.Controller.Commands.{get_position, set_event_callback}
use kuksa_val_services.Controller.Thread.{ReadResult, thread_start, thread_loop}
use kuksa_val_services.Controller.SetPosition.{set_position}
use kuksa_val_services.Controller.Lifecycle.{
  Environment, OpenCalls, CloseCalls, default_config, init_ctx, open_ctx, close_ctx,
}

-- The configuration before seatctrl_default_config overwrites it.
abbrev pub static_config : Config
static_config = record {
  can_device = some "vcan0";
  debug_raw = false;
  debug_ctl = true;
  debug_stats = true;
  debug_verbose = true;
  command_timeout = default_operation_timeout;
  motor_rpm = default_rpm;
}

-- The configuration with the device of the first argument, if there is one.
abbrev pub tool_config : Environment → List String → Config
tool_config env (program ∷ device ∷ args) = record (default_config env).0 {
  can_device = some device;
}
tool_config env _ = (default_config env).0

-- if (getenv(name)) pos = atoi(name): the name is converted, and not the value.
abbrev pub position_from : Environment → String → ℤ → ℤ
position_from env name default = elim (env.getenv name) [
  | none ↦ default
  | some value ↦ env.atoi name
]

abbrev pub pos_1 : Environment → ℤ
pos_1 env = position_from env "SC_POS1" (pos 42)

abbrev pub pos_2 : Environment → ℤ
pos_2 env = position_from env "SC_POS2" (pos 100)

-- What the surroundings contribute to a run: the answers to both seatctrl_open and to seatctrl_close,
-- what the reader thread reads in the sleeps of the program (in their order) and of its calls, and the
-- address of pos_cb.
pub record Session : Type 0 where
  pub open_calls_1 : OpenCalls
  pub open_calls_2 : OpenCalls
  pub close_calls : CloseCalls
  pub sleep_reads : ℕ → List ReadResult
  pub call_reads : ℕ → ℕ → List ReadResult
  pub pos_cb : ℕ

-- The thread that a successful seatctrl_open starts.
abbrev pub with_reader : Seat × ℤ → Seat
with_reader (s, rc) = if rc ==ℤ seat_ctrl_ok then thread_start s else s

module _ (p : Platform) (env : Environment) (argv : List String) (session : Session) where
  abbrev pub usleep : ℕ → Seat → Seat
  usleep k s = (thread_loop p (session.sleep_reads k) s).1

  -- Up to the second seatctrl_open.
  unfoldable pub tool_opens : Seat → Seat
  tool_opens s =
      let t = with_reader (open_ctx session.open_calls_1 s) in
      let u = (init_ctx t (tool_config env argv)).0 in with_reader (open_ctx session.open_calls_2 u)

  -- The callback is set with no user data.
  unfoldable pub tool_subscribes : Seat → Seat
  tool_subscribes s = usleep 1 (set_event_callback (usleep 0 s) (some session.pos_cb) 0).0

  unfoldable pub tool_moves : Seat → Seat
  tool_moves s =
      let t = (set_position p (session.call_reads 0) s (pos_1 env)).0 in
      let u = (set_position p (session.call_reads 1) (usleep 2 t) (pos 42)).0 in
      let v = (set_position p (session.call_reads 2) (usleep 3 u) (pos_2 env)).0 in usleep 4 v

  unfoldable pub tool_run : Seat → Seat
  unfolding tool_opens tool_subscribes tool_moves
  tool_run s = (close_ctx session.close_calls (tool_moves (tool_subscribes (tool_opens s)))).0
