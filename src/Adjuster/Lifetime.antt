-- ===== src/Adjuster/Lifetime.antt =====
-- What the constructor of the seat adjuster sets up, and the destructor leaves.
use kuksa_val_services.Prelude.{
  ℕ, ℤ, pos, ◌≤ℤ◌, ◌≡◌, ◌≢◌, Bool, [], none, some, String, arith, if◌then◌else◌,
}
use kuksa_val_services.Controller.Types.{Seat, seat_ctrl_ok, seat_ctrl_err_invalid, default_rpm}
use kuksa_val_services.Controller.Commands.{set_event_callback}
use kuksa_val_services.Controller.Thread.{thread_start}
use kuksa_val_services.Controller.Lifecycle.{
  Environment, OpenCalls, default_config, init_ctx, open_ctx, is_good_rpm, override,
}
use kuksa_val_services.Controller.Invariant.{IsValid}
use kuksa_val_services.Controller.Sessions.{AllSucceed}
use kuksa_val_services.Adjuster.Impl.{Adjuster, construct, subscribe_position}
use kuksa_val_services.Adjuster.Results.{IsInformed}

-- The speed that the environment asks for.
abbrev pub requested_rpm : Environment → ℤ
requested_rpm env = override (env.getenv "SC_RPM") env.atoi default_rpm

-- Whatever the environment holds, seatctrl_default_config leaves a speed within 1..254: the requested
-- one if it is in range, with OK, and the default with ERR_INVALID if not.
pub default_config-rpm :
    (env : Environment)
    → let (c, rc) = default_config env in
      (pos 1 ≤ℤ c.motor_rpm)
      × (c.motor_rpm ≤ℤ pos 254)
      × (c.motor_rpm ≡ (if is_good_rpm (requested_rpm env) then requested_rpm env else default_rpm))
      × (rc ≡ (if is_good_rpm (requested_rpm env) then seat_ctrl_ok else seat_ctrl_err_invalid))
unfolding default_config
default_config-rpm env = ground arith

-- The reader thread has started.
abbrev pub started : Adjuster → Adjuster
started a = record a { seat = thread_start a.seat }

-- When the calls of the system succeed, the constructor gives an adjuster with a valid, opened context
-- for the given device whose speed is within 1..254, and does not end the process; once its thread runs
-- and a callback is set, that was last told the motor's position, where no call counts as -1.
pub construct-ready :
    (exit_on_error : Bool) (self event_cb f : ℕ) (env : Environment) (o : OpenCalls) (name : String)
    (s : Seat)
    → AllSucceed o
    → self ≢ 0
    → s.outputs ≡ []
    → let a = construct exit_on_error self event_cb env o name s in
      (a.exited ≡ none)
      × (a.seat.ctx.socket ≡ o.socket_result)
      × (a.seat.ctx.config.can_device ≡ some name)
      × (pos 1 ≤ℤ a.seat.ctx.config.motor_rpm)
      × (a.seat.ctx.config.motor_rpm ≤ℤ pos 254)
      × IsValid a.seat.ctx
      × IsInformed exit_on_error (subscribe_position (started a) (some f))
unfolding construct init_ctx open_ctx set_event_callback subscribe_position
construct-ready exit_on_error self event_cb f env o name s all h q =
    ground (arith, default_config-rpm env)
