-- ===== src/Controller/Arriving.antt =====
-- seat_controller.cc: the end of an operation, from the frame that reports the arrival of the motor.
use kuksa_val_services.Prelude.{
  ℕ, pos, ◌≡◌, ◌≢◌, ◌≤◌, ◌+◌, ◌≤ℤ◌, ◌⊎◌, inl, inr, true, false, List, ◌∷◌, some, arith, sub_ℕ,
}
use kuksa_val_services.Controller.Types.{
  Seat, Context, Platform, CanFrame, Stat, inc, dec, socket_invalid, seat_ctrl_ok,
  motor_pos_invalid,
}
use kuksa_val_services.Controller.Commands.{is_ctl_running}
use kuksa_val_services.Controller.Status.{handle_secu_stat, take_stat, stat_in_range, with_stat}
use kuksa_val_services.Controller.ControlLoop.{
  control_loop, is_reached, is_starting, update_learned_mode,
}
use kuksa_val_services.Controller.Thread.{ReadResult, on_frame, on_read, thread_loop, is_open}
use kuksa_val_services.Controller.Effects.{control_loop-ctx, notify_position-ctx}
use kuksa_val_services.Controller.Outcomes.{LastSent, cmd_frame}
use kuksa_val_services.Controller.Operation.{loop_time}
use kuksa_val_services.Controller.Stopping.{IsReliable, control_loop-LastSent}
use kuksa_val_services.Controller.Idle.{frames, thread_loop_idle}

-- The reported position is at the context's target, or past it.
pub record HasArrived (c : Context) (t : Stat) : Type 0 where
  pub known : t.stat_pos ≢ motor_pos_invalid
  pub there :
      ((c.desired_direction ≡ inc) × (c.desired_position ≤ t.stat_pos))
      ⊎ ((c.desired_direction ≡ dec) × (t.stat_pos ≤ c.desired_position))

-- No operation is pending, and the newest frame is the one for "off" at speed 0.
pub record HasStopped (p : Platform) (s : Seat) : Type 0 where
  pub over : is_ctl_running s.ctx ≡ false
  pub bytes : List ℕ
  pub packed : p.cmd_1_pack (record { motor1_manual_cmd = 0; motor1_set_rpm = 0 }) ≡ some bytes
  pub rest : List CanFrame
  pub newest : frames s.outputs ≡ cmd_frame p bytes ∷ rest

module _ (p : Platform) where
  -- The frame is a SECU1_STAT frame that unpacks to these values, which are in range.
  abbrev pub Reports : CanFrame → Stat → Type 0
  Reports f t =
      (f.can_id ≡ p.stat_frame_id)
      × (p.stat_unpack f.payload f.can_dlc ≡ some t)
      × (stat_in_range p t ≡ true)

  -- The motor moves, or stands at the target, or every reading of the clock is past the grace period.
  abbrev pub HasStarted : Context → Stat → Type 0
  HasStarted c t =
      (t.stat_mov_state ≢ 0)
      ⊎ (t.stat_pos ≡ c.desired_position)
      ⊎ ((k : ℕ) → c.command_ts + 500 ≤ p.clock k)

  handle_secu_stat-Reports :
      (s : Seat) (f : CanFrame) (t : Stat)
      → Reports f t
      → ((handle_secu_stat p s f).1 ≡ seat_ctrl_ok)
        × ((handle_secu_stat p s f).0.ctx ≡ with_stat t s.ctx)
  unfolding handle_secu_stat take_stat
  handle_secu_stat-Reports s f t (id, e, good) = ground (arith, notify_position-ctx p t s)

  is_reached-HasArrived :
      (c : Context) (t : Stat) → HasArrived c t → is_reached (with_stat t c) ≡ true
  is_reached-HasArrived c t h = elim h.there [
    | inl (d, le) ↦ ground (arith, h.known)
    | inr (d, le) ↦ ground (arith, h.known)
  ]

  -- One round of the control loop on a context that has arrived.
  control_loop_arrived :
      (s : Seat)
      → is_reached s.ctx ≡ true
      → is_starting (sub_ℕ (loop_time p s) s.ctx.command_ts) s.ctx ≡ false
      → is_ctl_running (control_loop p s).0.ctx ≡ false
  unfolding is_ctl_running
  control_loop_arrived s there started = ground (arith, control_loop-ctx p s)

  is_starting-HasStarted :
      (c : Context) (t : Stat) (k : ℕ)
      → HasStarted c t
      → is_starting (sub_ℕ (p.clock k) c.command_ts) (with_stat t c) ≡ false
  is_starting-HasStarted c t k (inl h) = ground arith
  is_starting-HasStarted c t k (inr (inl h)) = ground arith
  is_starting-HasStarted c t k (inr (inr h)) = ground (arith, h k)

  LastSent-HasStopped :
      (s : Seat) → is_ctl_running s.ctx ≡ false → LastSent p 0 0 s → HasStopped p s
  LastSent-HasStopped s over (bytes, packed, rest, e) = record {
    over = over;
    bytes = bytes;
    packed = packed;
    rest = frames rest;
    newest = λ i. frames (e i);
  }

  -- One round of the control loop, on the context that a status has brought to the target.
  control_loop_stops :
      (s : Seat)
      → IsReliable p
      → is_ctl_running s.ctx ≡ true
      → is_reached s.ctx ≡ true
      → is_starting (sub_ℕ (loop_time p s) s.ctx.command_ts) s.ctx ≡ false
      → HasStopped p (control_loop p s).0
  unfolding is_ctl_running
  control_loop_stops s ok on there started =
      let over = control_loop_arrived s there started in
      let connected : s.ctx.socket ≢ socket_invalid = ground arith in
      LastSent-HasStopped (control_loop p s).0 over (control_loop-LastSent p s ok connected on over)

  on_frame-Reports :
      (f : CanFrame) (s : Seat) (t : Stat)
      → Reports f t
      → on_frame p f s ≡ (control_loop p (handle_secu_stat p s f).0).0
  unfolding on_frame
  on_frame-Reports f s t reports = ground (arith, reports, handle_secu_stat-Reports s f t reports)

  on_frame_arrives :
      (f : CanFrame) (s : Seat) (t : Stat)
      → IsReliable p
      → is_ctl_running s.ctx ≡ true
      → Reports f t
      → HasArrived s.ctx t
      → HasStarted s.ctx t
      → HasStopped p (on_frame p f s)
  unfolding is_ctl_running
  on_frame_arrives f s t ok on reports there started =
      let u : Seat = (handle_secu_stat p s f).0 in
      let (rc, same) = handle_secu_stat-Reports s f t reports in
      let waits = is_starting-HasStarted s.ctx t (update_learned_mode p u).clock_reads started in
      rw (on_frame-Reports f s t reports) (
        control_loop_stops u ok (rw same on) (rw same (is_reached-HasArrived s.ctx t there))
          (rw same waits))

  -- With the arrival no operation is pending, also where the socket fails or none was pending before.
  pub on_frame_settles :
      (f : CanFrame) (s : Seat) (t : Stat)
      → Reports f t
      → HasArrived s.ctx t
      → HasStarted s.ctx t
      → is_ctl_running (on_frame p f s).ctx ≡ false
  unfolding is_ctl_running
  on_frame_settles f s t reports there started =
      let u : Seat = (handle_secu_stat p s f).0 in
      let (rc, same) = handle_secu_stat-Reports s f t reports in
      let waits = is_starting-HasStarted s.ctx t (update_learned_mode p u).clock_reads started in
      rw (on_frame-Reports f s t reports)
        (control_loop_arrived u (rw same (is_reached-HasArrived s.ctx t there)) (rw same waits))

  -- What a good status leaves of the context, but for the operation.
  pub on_frame-position :
      (f : CanFrame) (s : Seat) (t : Stat)
      → Reports f t
      → ((on_frame p f s).ctx.motor1_pos ≡ t.stat_pos)
        × ((on_frame p f s).ctx.magic ≡ s.ctx.magic)
        × ((on_frame p f s).ctx.running ≡ s.ctx.running)
  on_frame-position f s t reports =
      let u : Seat = (handle_secu_stat p s f).0 in
      let (rc, same) = handle_secu_stat-Reports s f t reports in
      rw (on_frame-Reports f s t reports) (ground (arith, same, control_loop-ctx p u))

  pub thread_loop_arrives :
      (r : ReadResult) (rs : List ReadResult) (s : Seat) (t : Stat)
      → IsReliable p
      → is_open s ≡ true
      → is_ctl_running s.ctx ≡ true
      → pos 0 ≤ℤ r.cnt
      → Reports r.frame t
      → HasArrived s.ctx t
      → HasStarted s.ctx t
      → HasStopped p (thread_loop p (r ∷ rs) s).1
  unfolding thread_loop on_read
  thread_loop_arrives r rs s t ok o on c reports there started =
      let u : Seat = on_frame p r.frame s in
      let h : HasStopped p u = on_frame_arrives r.frame s t ok on reports there started in
      let (quiet, same) = thread_loop_idle p rs u h.over in
      record {
        over = ground (arith, quiet);
        bytes = h.bytes;
        packed = h.packed;
        rest = h.rest;
        newest = ground (arith, h.newest, same);
      }
