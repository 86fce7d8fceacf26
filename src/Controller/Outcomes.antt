-- ===== src/Controller/Outcomes.antt =====
-- What seatctrl_set_position returns, and what it leaves behind in each case.
use kuksa_val_services.Prelude.{
  ℕ, ℤ, pos, negsuc, dec_le, ◌≡◌, ◌≢◌, ◌≤◌, ◌<◌, ◌⊎◌, ◌<ℤ◌, ◌≤ℤ◌, inl, inr, refl, List, ◌∷◌, some,
  Option-cases, arith, to_u8, Bool-cases, ◌==◌,
}
use kuksa_val_services.Controller.Types.{
  Seat, Context, Platform, CanFrame, Output, sent, inc, dec, direction_code, motor_pos_invalid,
  seat_ctrl_context_magic, seat_ctrl_ok, seat_ctrl_err, seat_ctrl_err_can_io, seat_ctrl_err_invalid,
  seat_ctrl_err_no_frames,
}
use kuksa_val_services.Controller.Commands.{send_cmd1, stop_movement, no_target}
use kuksa_val_services.Controller.Thread.{ReadResult}
use kuksa_val_services.Controller.SetPosition.{
  set_position, move_to, stay, start_move, begin_move, wait_position, position_retries, sleep,
  move_or_stay,
}
use kuksa_val_services.Controller.Effects.{send_cmd1-ctx, stop_movement-ctx}
use kuksa_val_services.Controller.Invariant.{IsIdle}

abbrev pub cmd_frame : Platform → List ℕ → CanFrame
cmd_frame p bytes = record { can_id = p.cmd_1_frame_id; can_dlc = 8; payload = bytes }

-- The newest output is the SECU1_CMD_1 frame for a direction and a speed.
abbrev pub LastSent : Platform → ℕ → ℕ → Seat → Type 0
LastSent p d r s =
    (bytes : List ℕ) × (p.cmd_1_pack (record { motor1_manual_cmd = d; motor1_set_rpm = r })
      ≡ some bytes)
    × (rest : List Output) × (s.outputs ≡ sent (cmd_frame p bytes) ∷ rest)

-- The context's operation goes to `d`, towards it from the motor's position.
pub record MovesTo (c : Context) (d : ℕ) : Type 0 where
  pub target : c.desired_position ≡ d
  pub towards :
      ((c.desired_direction ≡ inc) × (c.motor1_pos < d))
      ⊎ ((c.desired_direction ≡ dec) × (d < c.motor1_pos))

-- The ways in which a call with a good position ends, once the motor's position is known.
pub data Outcome (p : Platform) (d : ℕ) (r : Seat × ℤ) : Type 0 where
  stays : IsIdle r.0.ctx → r.0.ctx.motor1_pos ≡ d → r.1 ≡ seat_ctrl_ok → Outcome p d r
  moves :
      MovesTo r.0.ctx d
      → r.1 ≡ seat_ctrl_ok
      → LastSent p (direction_code r.0.ctx.desired_direction) (to_u8 r.0.ctx.config.motor_rpm) r.0
      → Outcome p d r
  fails : MovesTo r.0.ctx d → (r.1 ≡ seat_ctrl_err) ⊎ (r.1 ≡ seat_ctrl_err_can_io) → Outcome p d r

-- The position is out of range, or the context is not initialised.
abbrev pub IsRefused : Seat → ℤ → Type 0
IsRefused s d = (s.ctx.magic ≢ seat_ctrl_context_magic) ⊎ ((d <ℤ pos 0) ⊎ (pos 100 <ℤ d))

-- The ways in which any call ends.
pub data Answer (p : Platform) (arrivals : ℕ → List ReadResult) (s : Seat) (d : ℤ) : Type 0 where
  refused :
      IsRefused s d
      → set_position p arrivals s d ≡ (s, seat_ctrl_err_invalid)
      → Answer p arrivals s d
  unknown :
      s.ctx.magic ≡ seat_ctrl_context_magic
      → pos 0 ≤ℤ d
      → d ≤ℤ pos 100
      → (wait_position p arrivals position_retries 0 s).1.ctx.motor1_pos ≡ motor_pos_invalid
      → set_position p arrivals s d
        ≡ ((wait_position p arrivals position_retries 0 s).1, seat_ctrl_err_no_frames)
      → Answer p arrivals s d
  accepted :
      (n : ℕ)
      → s.ctx.magic ≡ seat_ctrl_context_magic
      → d ≡ pos n
      → n ≤ 100
      → (wait_position p arrivals position_retries 0 s).1.ctx.motor1_pos ≢ motor_pos_invalid
      → Outcome p n (set_position p arrivals s d)
      → Answer p arrivals s d

module _ (p : Platform) where
  pub send_cmd1-ok :
      (s : Seat) (d r : ℕ)
      → (send_cmd1 p s d r).1 ≡ seat_ctrl_ok
      → LastSent p d r (send_cmd1 p s d r).0
  unfolding send_cmd1
  send_cmd1-ok s d r h =
      elim (Option-cases (p.cmd_1_pack (record { motor1_manual_cmd = d; motor1_set_rpm = r }))) [
        | inl e ↦ absurd (ground arith)
        | inr (bytes, e) ↦ (bytes, e, s.outputs, ground arith)
      ]

  send_cmd1-codes :
      (s : Seat) (d r : ℕ)
      → ((send_cmd1 p s d r).1 ≡ seat_ctrl_ok)
        ⊎ ((send_cmd1 p s d r).1 ≡ seat_ctrl_err)
        ⊎ ((send_cmd1 p s d r).1 ≡ seat_ctrl_err_can_io)
  unfolding send_cmd1
  send_cmd1-codes s d r = ground arith

module _ (p : Platform) (arrivals : ℕ → List ReadResult) where
  begin_move-MovesTo :
      (d : ℕ) (s : Seat) → s.ctx.motor1_pos ≢ d → MovesTo (begin_move p arrivals d s).ctx d
  begin_move-MovesTo d s h = ground arith

  start_move-MovesTo :
      (d : ℕ) (s : Seat) → s.ctx.motor1_pos ≢ d → MovesTo (start_move p arrivals d s).0.ctx d
  unfolding start_move
  start_move-MovesTo d s h =
      let u : Seat = begin_move p arrivals d s in
      rw (send_cmd1-ctx p u (direction_code u.ctx.desired_direction) (to_u8 u.ctx.config.motor_rpm))
        (begin_move-MovesTo d s h)

  start_move-ok :
      (d : ℕ) (s : Seat)
      → (start_move p arrivals d s).1 ≡ seat_ctrl_ok
      → LastSent p
          (direction_code (start_move p arrivals d s).0.ctx.desired_direction)
          (to_u8 (start_move p arrivals d s).0.ctx.config.motor_rpm)
          (start_move p arrivals d s).0
  unfolding start_move
  start_move-ok d s h =
      let u : Seat = begin_move p arrivals d s in
      let dir : ℕ = direction_code u.ctx.desired_direction in
      let rpm : ℕ = to_u8 u.ctx.config.motor_rpm in
      rw (send_cmd1-ctx p u dir rpm) (send_cmd1-ok p u dir rpm h)

  start_move-codes :
      (d : ℕ) (s : Seat)
      → ((start_move p arrivals d s).1 ≡ seat_ctrl_ok)
        ⊎ (((start_move p arrivals d s).1 ≡ seat_ctrl_err)
            ⊎ ((start_move p arrivals d s).1 ≡ seat_ctrl_err_can_io))
  unfolding start_move
  start_move-codes d s =
      let u : Seat = begin_move p arrivals d s in
      send_cmd1-codes p u (direction_code u.ctx.desired_direction) (to_u8 u.ctx.config.motor_rpm)

  stay-no_target : (s : Seat) → (stay p arrivals s).0.ctx ≡ no_target s.ctx
  unfolding stay
  stay-no_target s = ground (arith, stop_movement-ctx p s)

  start_move-Outcome :
      (d : ℕ) (s : Seat) → s.ctx.motor1_pos ≢ d → Outcome p d (start_move p arrivals d s)
  start_move-Outcome d s h = elim (start_move-codes d s) [
    | inl e ↦ moves (start_move-MovesTo d s h) e (start_move-ok d s e)
    | inr e ↦ fails (start_move-MovesTo d s h) e
  ]

  -- What a move leaves behind that started from the off command.
  move_or_stay-Outcome : (d : ℕ) (s : Seat) → Outcome p d (move_or_stay p arrivals d s)
  move_or_stay-Outcome d s = elim (Bool-cases (s.ctx.motor1_pos == d)) [
    | inl e ↦ rw e (
        Outcome.stays (ground (arith, stay-no_target s)) (ground (arith, stay-no_target s))
          (unfold stay in refl))
    | inr e ↦ rw e (start_move-Outcome d s (λ q. absurd (ground arith)))
  ]

  abbrev pub after_wait : Seat → Seat
  after_wait s = (wait_position p arrivals position_retries 0 s).1

  set_position_refused :
      (s : Seat) (d : ℤ) → IsRefused s d → set_position p arrivals s d ≡ (s, seat_ctrl_err_invalid)
  unfolding set_position
  set_position_refused s d h = ground arith

  set_position_unknown :
      (s : Seat) (d : ℕ)
      → s.ctx.magic ≡ seat_ctrl_context_magic
      → d ≤ 100
      → (after_wait s).ctx.motor1_pos ≡ motor_pos_invalid
      → set_position p arrivals s (pos d) ≡ (after_wait s, seat_ctrl_err_no_frames)
  unfolding set_position
  set_position_unknown s d m h k = ground arith

  pub set_position-Outcome :
      (s : Seat) (d : ℕ)
      → s.ctx.magic ≡ seat_ctrl_context_magic
      → d ≤ 100
      → (after_wait s).ctx.motor1_pos ≢ motor_pos_invalid
      → Outcome p d (set_position p arrivals s (pos d))
  unfolding set_position move_to
  set_position-Outcome s d m h k =
      let w : ℕ × Seat = wait_position p arrivals position_retries 0 s in
      let u : Seat = sleep p arrivals w.0 (stop_movement p w.1).0 in
      let e : set_position p arrivals s (pos d) ≡ move_or_stay p arrivals d u = ground arith in
      rw e (move_or_stay-Outcome d u)

  accepted_cases :
      (s : Seat) (d : ℕ)
      → s.ctx.magic ≡ seat_ctrl_context_magic
      → d ≤ 100
      → Answer p arrivals s (pos d)
  accepted_cases s d m h = elim (Bool-cases ((after_wait s).ctx.motor1_pos == motor_pos_invalid)) [
    | inl e ↦
        unknown m (ground arith) (ground arith) (ground arith)
          (set_position_unknown s d m h (ground arith))
    | inr e ↦
        (let known : (after_wait s).ctx.motor1_pos ≢ motor_pos_invalid = ground arith in
          accepted d m refl h known (set_position-Outcome s d m h known))
  ]

  magic_cases :
      (s : Seat) (d : ℕ)
      → d ≤ 100
      → (s.ctx.magic ≡ seat_ctrl_context_magic) ⊎ (s.ctx.magic ≢ seat_ctrl_context_magic)
      → Answer p arrivals s (pos d)
  magic_cases s d h (inl m) = accepted_cases s d m h
  magic_cases s d h (inr m) = refused (inl m) (set_position_refused s (pos d) (inl m))

  -- Every call of seatctrl_set_position ends in one of three ways. A context without the magic
  -- number or a position outside 0..100 gives ERR_INVALID and changes nothing. If the motor's position
  -- is still unknown after the retries, it gives ERR_NO_FRAMES and changes nothing more. Else the call
  -- ends with no operation at the requested position and OK; or with an operation from the motor's
  -- position towards the requested one and OK, the command for it being the newest output; or with that
  -- operation and the code of the command that failed.
  pub set_position-Answer : (s : Seat) (d : ℤ) → Answer p arrivals s d
  set_position-Answer s (negsuc n) =
      let r : IsRefused s (negsuc n) = inr (inl (omega arith)) in
      refused r (set_position_refused s (negsuc n) r)
  set_position-Answer s (pos d) = elim (dec_le d 100) [
    | yes h ↦ magic_cases s d h (ground arith)
    | no h ↦
        let r : IsRefused s (pos d) = inr (inr (omega arith)) in
        refused r (set_position_refused s (pos d) r)
  ]
