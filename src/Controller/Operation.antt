-- ===== src/Controller/Operation.antt =====
-- The control loop as its client sees it: an operation that is pending until the motor arrives or
-- the time is over.
use kuksa_val_services.Prelude.{
  ℕ, ℤ, pos, ltb_ℤ, sub_ℕ, ◌≡◌, Bool, false, not, ◌&&◌, ◌||◌, leb, ◌==◌, if◌then◌else◌, Option,
  none, some, arith,
}
use kuksa_val_services.Controller.Types.{
  Seat, Context, Platform, MotorDirection, off, inc, dec, inv, motor_pos_invalid,
}
use kuksa_val_services.Controller.Commands.{is_ctl_running}
use kuksa_val_services.Controller.ControlLoop.{control_loop, update_learned_mode}
use kuksa_val_services.Controller.Effects.{control_loop-ctx}

pub record Operation : Type 0 where
  pub target : ℕ
  pub direction : MotorDirection
  pub since : ℕ

-- The operation that the context stands for.
abbrev pub view : Context → Option Operation
view c =
    if is_ctl_running c
    then some (record {
      target = c.desired_position;
      direction = c.desired_direction;
      since = c.command_ts;
    })
    else none

-- The motor's position, if it is known.
abbrev pub known : ℕ → Option ℕ
known n = if n == motor_pos_invalid then none else some n

-- The motor is at the target or past it.
abbrev pub arrived : Operation → Option ℕ → Bool
arrived o none = false
arrived o (some n) = elim o.direction [
  | inc ↦ leb o.target n
  | dec ↦ leb n o.target
  | off ↦ false
  | inv ↦ false
]

-- A motor that stands elsewhere than at the target gets half a second to start.
abbrev pub in_grace : ℕ → ℕ → ℕ → Operation → Bool
in_grace now motor_pos mov_state o =
    ltb_ℤ (sub_ℕ now o.since) (pos 500) && mov_state == 0 && not (motor_pos == o.target)

-- What becomes of an operation when a status arrives.
abbrev pub progress : ℕ → ℤ → ℕ → ℕ → Option Operation → Option Operation
progress now timeout motor_pos mov_state none = none
progress now timeout motor_pos mov_state (some o) =
    if in_grace now motor_pos mov_state o
    then some o
    else if arrived o (known motor_pos) || ltb_ℤ timeout (sub_ℕ now o.since)
    then none
    else some o

module _ (p : Platform) where
  -- The time that a round of the control loop compares with: its own reading of the clock.
  abbrev pub loop_time : Seat → ℕ
  loop_time s = p.clock (update_learned_mode p s).clock_reads

  -- One round of seatctrl_control_loop does to the pending operation what `progress` says: kept
  -- while it is within its grace period, over once the motor has arrived or the timeout has passed.
  pub view-control_loop :
      (s : Seat)
      → view (control_loop p s).0.ctx
        ≡ progress
            (loop_time s)
            s.ctx.config.command_timeout
            s.ctx.motor1_pos
            s.ctx.motor1_mov_state
            (view s.ctx)
  unfolding is_ctl_running
  view-control_loop s = ground (arith, control_loop-ctx p s)
