-- ===== src/Controller/Lifecycle.antt =====
-- seat_controller.cc: the configuration, and how a context is initialised, opened and closed.
-- Pointers to contexts and configurations are not null here.
use kuksa_val_services.Prelude.{
  ℕ, ℤ, pos, negsuc, Bool, true, false, not, ◌||◌, Option, none, some, ltb_ℤ, ◌==◌, ◌==ℤ◌,
  if◌then◌else◌, String,
}
use kuksa_val_services.Controller.Types.{
  Seat, Context, Config, off, inv, invalid, direction_code, learning_code, motor_pos_invalid,
  socket_invalid, default_rpm, default_operation_timeout, seat_ctrl_context_magic, seat_ctrl_ok,
  seat_ctrl_err, seat_ctrl_err_no_can, seat_ctrl_err_can_bind, seat_ctrl_err_invalid,
}

-- getenv and atoi of the C library.
pub record Environment : Type 0 where
  pub getenv : String → Option String
  pub atoi : String → ℤ

abbrev pub to_bool : ℤ → Bool
to_bool n = not (n ==ℤ pos 0)

-- if (getenv(NAME)) field = convert(getenv(NAME))
abbrev pub override {ℓ} : {A : Type ℓ} → Option String → (String → A) → A → A
override none convert d = d
override (some text) convert d = convert text

abbrev pub is_good_rpm : ℤ → Bool
is_good_rpm rpm = not (ltb_ℤ rpm (pos 1) || ltb_ℤ (pos 254) rpm)

-- The check at the end of seatctrl_default_config.
unfoldable pub check_rpm : Config → Config × ℤ
check_rpm c =
    if is_good_rpm c.motor_rpm
    then (c, seat_ctrl_ok)
    else (record c { motor_rpm = default_rpm }, seat_ctrl_err_invalid)

unfoldable pub default_config : Environment → Config × ℤ
unfolding check_rpm
default_config env =
    let flag = λ (t : String). to_bool (env.atoi t) in
    check_rpm (record {
      can_device = some (override (env.getenv "SC_CAN") (λ t. t) "can0");
      debug_raw = override (env.getenv "SC_RAW") flag false;
      debug_ctl = override (env.getenv "SC_CTL") flag true;
      debug_stats = override (env.getenv "SC_STAT") flag true;
      debug_verbose = override (env.getenv "SC_VERBOSE") flag false;
      command_timeout = override (env.getenv "SC_TIMEOUT") env.atoi default_operation_timeout;
      motor_rpm = override (env.getenv "SC_RPM") env.atoi default_rpm;
    })

-- The context after `memset` and the assignments of seatctrl_init_ctx.
abbrev pub fresh_context : Config → Context
fresh_context c = record {
  magic = seat_ctrl_context_magic;
  config = c;
  socket = socket_invalid;
  running = false;
  thread_id = 0;
  command_ts = 0;
  desired_position = motor_pos_invalid;
  desired_direction = off;
  motor1_pos = motor_pos_invalid;
  motor1_mov_state = direction_code inv;
  motor1_learning_state = learning_code invalid;
  event_cb = none;
  event_cb_user_data = 0;
}

unfoldable pub init_ctx : Seat → Config → Seat × ℤ
init_ctx s c = elim c.can_device [
  | none ↦ (s, seat_ctrl_err_invalid)
  | some device ↦ (record s { ctx = fresh_context c }, seat_ctrl_ok)
]

-- What the operating system answers to one seatctrl_open: `socket`, `ioctl` (its result and the
-- index that it stores), `bind` to an index, and `pthread_create` (its result and the thread).
pub record OpenCalls : Type 0 where
  pub socket_result : ℤ
  pub ioctl_result : ℤ
  pub ioctl_ifindex : ℤ
  pub bind_result : ℤ → ℤ
  pub create_result : ℤ
  pub new_thread : ℕ

abbrev pub ifindex : OpenCalls → ℤ
ifindex o = if o.ioctl_result ==ℤ negsuc 0 then negsuc 0 else o.ioctl_ifindex

abbrev pub with_socket : Seat → ℤ → Seat
with_socket s fd = record s { ctx = record (s.ctx) { socket = fd } }

abbrev pub with_thread : Seat → ℕ → Seat
with_thread s thread = record s { ctx = record (s.ctx) { thread_id = thread } }

-- The socket is there: bind it, and start the thread. The result of `setsockopt` is only logged.
unfoldable pub bind_and_start : OpenCalls → Seat → Seat × ℤ
bind_and_start o s =
    if ltb_ℤ (o.bind_result (ifindex o)) (pos 0)
    then (s, seat_ctrl_err_can_bind)
    else if not (o.create_result ==ℤ pos 0)
    then (with_thread s 0, seat_ctrl_err)
    else (with_thread s o.new_thread, seat_ctrl_ok)

abbrev pub has_device : Context → Bool
has_device c = elim c.config.can_device [ none ↦ false | some device ↦ true ]

unfoldable pub open_ctx : OpenCalls → Seat → Seat × ℤ
unfolding bind_and_start
open_ctx o s =
    if not (s.ctx.magic == seat_ctrl_context_magic) || not (has_device s.ctx)
    then (s, seat_ctrl_err_invalid)
    else if not (s.ctx.socket ==ℤ socket_invalid)
    then (s, seat_ctrl_err)
    else if s.ctx.running || not (s.ctx.thread_id == 0)
    then (s, seat_ctrl_err)
    else if ltb_ℤ o.socket_result (pos 0)
    then (with_socket s socket_invalid, seat_ctrl_err_no_can)
    else bind_and_start o (with_socket s o.socket_result)

-- The answers to one seatctrl_close, and the thread that makes the call.
pub record CloseCalls : Type 0 where
  pub close_result : ℤ
  pub self : ℕ
  pub join_result : ℤ

-- Close the socket; the code that the call returns so far.
unfoldable pub close_socket : CloseCalls → Seat → Seat × ℤ
close_socket o s = if s.ctx.socket ==ℤ socket_invalid then (s, seat_ctrl_ok) else (
  with_socket s socket_invalid,
  if ltb_ℤ o.close_result (pos 0) then seat_ctrl_err else seat_ctrl_ok,
)

unfoldable pub join_thread : CloseCalls → Seat → ℤ → Seat × ℤ
join_thread o s rc = if s.ctx.thread_id == 0 then (s, rc) else (
  with_thread s 0,
  if o.self == s.ctx.thread_id then rc else if o.join_result ==ℤ pos 0 then rc else seat_ctrl_err,
)

unfoldable pub close_ctx : CloseCalls → Seat → Seat × ℤ
unfolding close_socket join_thread
close_ctx o s =
    if not (s.ctx.magic == seat_ctrl_context_magic)
    then (s, seat_ctrl_err_invalid)
    else (let stopped = record s { ctx = record (s.ctx) { running = false } } in
        let (t, rc) = close_socket o stopped in join_thread o t rc)
