-- ===== src/Controller/Thread.antt =====
-- seat_controller.cc: seatctrl_threadFunc, the thread that reads CAN frames. Each element of a list
-- is what one `read` returned; an empty list is a `read` that still blocks.
use kuksa_val_services.Prelude.{
  ℕ, ℤ, pos, Bool, true, false, not, ◌&&◌, List, [], ◌∷◌, ltb_ℤ, ◌==◌, ◌==ℤ◌, if◌then◌else◌,
}
use kuksa_val_services.Controller.Types.{
  Seat, Platform, CanFrame, called, can_error, socket_invalid, seat_ctrl_ok,
}
use kuksa_val_services.Controller.Commands.{call_event_cb}
use kuksa_val_services.Controller.Status.{handle_secu_stat}
use kuksa_val_services.Controller.ControlLoop.{control_loop}

-- `cnt`, `errno` after the call, and the buffer.
pub record ReadResult : Type 0 where
  pub cnt : ℤ
  pub errno : ℕ
  pub frame : CanFrame

-- Does the loop go on, or end by `break`?
pub data Flow : Type 0 where
  continues breaks : Flow

abbrev pub is_open : Seat → Bool
is_open s = s.ctx.running && not (s.ctx.socket ==ℤ socket_invalid)

-- The thread's first statement.
abbrev pub thread_start : Seat → Seat
thread_start s = record s { ctx = record (s.ctx) { running = true } }

module _ (p : Platform) where
  unfoldable pub on_frame : CanFrame → Seat → Seat
  on_frame f s =
      if f.can_id == p.stat_frame_id
      then (let (t, rc) = handle_secu_stat p s f in
          if rc ==ℤ seat_ctrl_ok then (control_loop p t).0 else t)
      else s

  -- One round of the loop.
  unfoldable pub on_read : ReadResult → Seat → Flow × Seat
  on_read r s =
      if ltb_ℤ r.cnt (pos 0) && r.errno == p.eagain
      then (if not s.ctx.running then breaks else continues, s)
      else if ltb_ℤ r.cnt (pos 0) && r.errno == p.eintr
      then (continues, s)
      else if ltb_ℤ r.cnt (pos 0)
      then (
        if r.cnt ==ℤ pos p.enetdown then continues else breaks,
        call_event_cb s.ctx.event_cb s (λ t f. called f can_error r.errno t.ctx.event_cb_user_data),
      )
      else (continues, on_frame r.frame s)

  -- The loop over the results of `read`, from its head.
  unfoldable pub thread_loop : List ReadResult → Seat → Flow × Seat
  thread_loop [] s = (if is_open s then continues else breaks, s)
  thread_loop (r ∷ rs) s = elim (is_open s) [
    | false ↦ (breaks, s)
    | true ↦
        let (flow, t) = on_read r s in
        elim flow [ continues ↦ thread_loop rs t | breaks ↦ (breaks, t) ]
  ]
