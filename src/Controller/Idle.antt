-- ===== src/Controller/Idle.antt =====
-- The reader thread while no operation is pending, and when an operation has run out of time.
use kuksa_val_services.Prelude.{
  ℕ, pos, sub_ℕ, ◌≡◌, ◌≤◌, ◌+◌, ◌<ℤ◌, ◌≤ℤ◌, inl, inr, refl, true, false, List, [], ◌∷◌, some, arith,
  Option-cases,
}
use kuksa_val_services.Controller.Types.{
  Seat, Context, Platform, CanFrame, Stat, Output, sent, called, seat_ctrl_ok,
}
use kuksa_val_services.Controller.Commands.{is_ctl_running, no_target}
use kuksa_val_services.Controller.Status.{
  handle_secu_stat, take_stat, notify_position, stat_in_range,
}
use kuksa_val_services.Controller.ControlLoop.{control_loop, update_learned_mode}
use kuksa_val_services.Controller.Thread.{ReadResult, on_frame, on_read, thread_loop, is_open}
use kuksa_val_services.Controller.Effects.{control_loop-ctx, notify_position-ctx}

-- The frames among the outputs.
abbrev pub frames : List Output → List CanFrame
frames [] = []
frames (sent f ∷ os) = f ∷ frames os
frames (called cb e v u ∷ os) = frames os

module _ (p : Platform) where
  pub is_ctl_running-no_target : (c : Context) → is_ctl_running (no_target c) ≡ false
  unfolding is_ctl_running
  is_ctl_running-no_target c = ground arith

  -- With no operation pending the control loop changes no more than its log state.
  control_loop_idle :
      (s : Seat)
      → is_ctl_running s.ctx ≡ false
      → ((control_loop p s).0.ctx ≡ s.ctx) × ((control_loop p s).0.outputs ≡ s.outputs)
  unfolding control_loop update_learned_mode
  control_loop_idle s quiet = ground (arith, control_loop-ctx p s)

  notify_position-frames :
      (t : Stat) (s : Seat) → frames (notify_position p t s).outputs ≡ frames s.outputs
  unfolding notify_position
  notify_position-frames t s = ground arith

  -- A status changes nothing that the pending operation rests on, and sends nothing.
  handle_secu_stat-silent :
      (s : Seat) (f : CanFrame)
      → (is_ctl_running (handle_secu_stat p s f).0.ctx ≡ is_ctl_running s.ctx)
        × (frames (handle_secu_stat p s f).0.outputs ≡ frames s.outputs)
  unfolding handle_secu_stat take_stat is_ctl_running
  handle_secu_stat-silent s f = elim (Option-cases (p.stat_unpack f.payload f.can_dlc)) [
    | inl e ↦ ground arith
    | inr (t, e) ↦ ground (arith, notify_position-ctx p t s, notify_position-frames t s)
  ]

  pub on_frame_idle :
      (f : CanFrame) (s : Seat)
      → is_ctl_running s.ctx ≡ false
      → (is_ctl_running (on_frame p f s).ctx ≡ false)
        × (frames (on_frame p f s).outputs ≡ frames s.outputs)
  unfolding on_frame
  on_frame_idle f s quiet =
      ground (arith, handle_secu_stat-silent s f, control_loop_idle (handle_secu_stat p s f).0)

  on_read_idle :
      (r : ReadResult) (s : Seat)
      → is_ctl_running s.ctx ≡ false
      → (is_ctl_running (on_read p r s).1.ctx ≡ false)
        × (frames (on_read p r s).1.outputs ≡ frames s.outputs)
  unfolding on_read
  on_read_idle r s quiet = ground (arith, on_frame_idle r.frame s quiet)

  -- While no operation is pending the reader thread sends no frame and starts no operation, whatever
  -- it reads.
  pub thread_loop_idle :
      (rs : List ReadResult) (s : Seat)
      → is_ctl_running s.ctx ≡ false
      → (is_ctl_running (thread_loop p rs s).1.ctx ≡ false)
        × (frames (thread_loop p rs s).1.outputs ≡ frames s.outputs)
  unfolding thread_loop
  thread_loop_idle [] s quiet = (quiet, refl)
  thread_loop_idle (r ∷ rs) s quiet =
      let (quiet', same) = on_read_idle r s quiet in
      ground (arith, quiet', same, thread_loop_idle rs (on_read p r s).1 quiet')

  -- The frame is a SECU1_STAT frame that unpacks to values in range.
  abbrev pub IsStatus : CanFrame → Type 0
  IsStatus f =
      (f.can_id ≡ p.stat_frame_id)
      × (t : Stat) × (p.stat_unpack f.payload f.can_dlc ≡ some t)
      × (stat_in_range p t ≡ true)

  -- From now on every reading of the clock lies beyond the grace period and the timeout.
  abbrev pub IsLate : Seat → Type 0
  IsLate s =
      (k : ℕ)
      → (s.ctx.command_ts + 500 ≤ p.clock k)
        × (s.ctx.config.command_timeout <ℤ sub_ℕ (p.clock k) s.ctx.command_ts)

  control_loop_late : (s : Seat) → IsLate s → is_ctl_running (control_loop p s).0.ctx ≡ false
  control_loop_late s late = ground (
    arith,
    control_loop-ctx p s,
    late (update_learned_mode p s).clock_reads,
    is_ctl_running-no_target s.ctx,
  )

  handle_secu_stat-status :
      (s : Seat) (f : CanFrame)
      → IsStatus f
      → ((handle_secu_stat p s f).1 ≡ seat_ctrl_ok)
        × ((handle_secu_stat p s f).0.ctx.command_ts ≡ s.ctx.command_ts)
        × ((handle_secu_stat p s f).0.ctx.config ≡ s.ctx.config)
  unfolding handle_secu_stat take_stat
  handle_secu_stat-status s f (id, t, e, good) = ground (arith, notify_position-ctx p t s)

  on_frame_late :
      (f : CanFrame) (s : Seat)
      → IsStatus f
      → IsLate s
      → is_ctl_running (on_frame p f s).ctx ≡ false
  unfolding on_frame
  on_frame_late f s h late =
      let t : Seat = (handle_secu_stat p s f).0 in
      let (ok, ts, cfg) = handle_secu_stat-status s f h in
      let late' : IsLate t = λ k. rw (ts, cfg) (late k) in
      ground (arith, ok, control_loop_late t late')

  pub thread_loop_late :
      (r : ReadResult) (rs : List ReadResult) (s : Seat)
      → is_open s ≡ true
      → pos 0 ≤ℤ r.cnt
      → IsStatus r.frame
      → IsLate s
      → is_ctl_running (thread_loop p (r ∷ rs) s).1.ctx ≡ false
  unfolding thread_loop on_read
  thread_loop_late r rs s o c h late =
      let quiet = on_frame_late r.frame s h late in
      ground (arith, quiet, thread_loop_idle rs (on_frame p r.frame s) quiet)
