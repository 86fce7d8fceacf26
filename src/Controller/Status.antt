-- ===== src/Controller/Status.antt =====
-- seat_controller.cc: handle_secu_stat, which takes the motor's state over from a SECU1_STAT frame.
use kuksa_val_services.Prelude.{ℤ, Bool, not, ◌&&◌, ◌||◌, none, some, leb, ◌==◌, if◌then◌else◌}
use kuksa_val_services.Controller.Types.{
  Seat, Context, Platform, CanFrame, Stat, called, motor1_pos_changed, motor_pos_invalid,
  seat_ctrl_ok, seat_ctrl_err, seat_ctrl_err_invalid,
}
use kuksa_val_services.Controller.Commands.{call_event_cb}

-- The assignments at the end of the handler.
abbrev pub with_stat : Stat → Context → Context
with_stat t c = record c {
  motor1_mov_state = t.stat_mov_state;
  motor1_learning_state = t.stat_learning_state;
  motor1_pos = t.stat_pos;
}

module _ (p : Platform) where
  -- The handler's range checks.
  abbrev pub stat_in_range : Stat → Bool
  stat_in_range t =
      p.motor1_pos_is_in_range t.stat_pos
      && (leb t.stat_pos 100 || t.stat_pos == motor_pos_invalid)
      && p.motor1_mov_state_is_in_range t.stat_mov_state
      && p.motor1_learning_state_is_in_range t.stat_learning_state

  -- The callback is called before the context changes.
  unfoldable pub notify_position : Stat → Seat → Seat
  notify_position t s =
      if s.ctx.running && not (s.ctx.motor1_pos == t.stat_pos)
      then call_event_cb s.ctx.event_cb s
          (λ u f. called f motor1_pos_changed t.stat_pos u.ctx.event_cb_user_data)
      else s

  unfoldable pub take_stat : Stat → Seat → Seat × ℤ
  take_stat t s =
      if stat_in_range t
      then (let u = notify_position t s in record u { ctx = with_stat t u.ctx }, seat_ctrl_ok)
      else (s, seat_ctrl_err_invalid)

  unfoldable pub handle_secu_stat : Seat → CanFrame → Seat × ℤ
  handle_secu_stat s frame =
      if not (frame.can_id == p.stat_frame_id)
      then (s, seat_ctrl_err_invalid)
      else elim (p.stat_unpack frame.payload frame.can_dlc) [
        | none ↦ (s, seat_ctrl_err)
        | some t ↦ take_stat t s
      ]
