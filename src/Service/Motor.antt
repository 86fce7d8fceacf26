-- ===== src/Service/Motor.antt =====
-- Requests of the service down to the motor: the service over the adjuster's implementation.
use mathlib.Core.Path.{subst}
use kuksa_val_services.Prelude.{
  ℕ, ℤ, pos, ◌≡◌, sym, ◌∙◌, refl, List, [], ◌∷◌, Bool, some, arith, to_u8,
}
use kuksa_val_services.Grpc.{status_ok}
use kuksa_val_services.Controller.Types.{Seat, Platform, CanFrame, Output, sent, direction_code}
use kuksa_val_services.Controller.Thread.{ReadResult}
use kuksa_val_services.Controller.SetPosition.{set_position}
use kuksa_val_services.Controller.Invariant.{IsIdle}
use kuksa_val_services.Controller.Outcomes.{
  MovesTo, cmd_frame, Outcome, stays, moves, fails, refused, unknown, accepted, set_position-Answer,
}
use kuksa_val_services.Adjuster.Interface.{SetResult, ok}
use kuksa_val_services.Adjuster.Impl.{
  Adjuster, adjuster, set_seat_position, to_set_result, with_seat, absorb,
}
use kuksa_val_services.Adjuster.Telling.{absorb-seat}
use kuksa_val_services.Service.{SeatState, move, set_result_to_status}
use kuksa_val_services.Service.Percent.{IsNearest}
use kuksa_val_services.Service.Requests.{wrong_seat, bad_base, asked, move-Moved}

-- The motor stands at the percentage with no operation pending; or an operation towards it is pending,
-- and its command is the newest frame on the bus.
pub data Served (p : Platform) (n : ℕ) (a : Adjuster) : Type 0 where
  stands : IsIdle a.seat.ctx → a.seat.ctx.motor1_pos ≡ n → Served p n a
  under_way :
      MovesTo a.seat.ctx n
      → (bytes : List ℕ)
      → p.cmd_1_pack (record {
        motor1_manual_cmd = direction_code a.seat.ctx.desired_direction;
        motor1_set_rpm = to_u8 a.seat.ctx.config.motor_rpm;
      })
        ≡ some bytes
      → (rest : List CanFrame) → a.bus ≡ cmd_frame p bytes ∷ rest
      → Served p n a

module _ (exit_on_error : Bool) (p : Platform) (arrivals : ℕ → List ReadResult) where
  pub with_seat-ctx : (s : Seat) (a : Adjuster) → (with_seat exit_on_error s a).seat.ctx ≡ s.ctx
  unfolding with_seat
  with_seat-ctx s a =
      ground
        (arith, absorb-seat exit_on_error s.outputs (record a { seat = record s { outputs = [] } }))

  with_seat-bus :
      (s : Seat) (a : Adjuster) (f : CanFrame) (rest : List Output)
      → s.outputs ≡ sent f ∷ rest
      → (os : List CanFrame) × ((with_seat exit_on_error s a).bus ≡ f ∷ os)
  unfolding with_seat absorb
  with_seat-bus s a f rest e =
      let b : Adjuster = record a { seat = record s { outputs = [] } } in
      ((absorb exit_on_error rest b).bus, rw e refl)

  Outcome-Served :
      (a : Adjuster) (n : ℕ) (r : Seat × ℤ)
      → Outcome p n r
      → to_set_result r.1 ≡ ok
      → Served p n (with_seat exit_on_error r.0 a)
  unfolding to_set_result
  Outcome-Served a n r (stays i e o) h = let c = with_seat-ctx r.0 a in stands (rw c i) (rw c e)
  Outcome-Served a n r (moves m o (bytes, packed, rest, l)) h =
      let (os, e) = with_seat-bus r.0 a (cmd_frame p bytes) rest l in
      let c = with_seat-ctx r.0 a in under_way (rw c m) bytes (rw c packed) os e
  Outcome-Served a n r (fails m e) h = absurd (ground arith)

  pub set_seat_position-Served :
      (a : Adjuster) (n : ℕ)
      → (set_seat_position exit_on_error p arrivals a (pos n)).1 ≡ ok
      → Served p n (set_seat_position exit_on_error p arrivals a (pos n)).0
  unfolding set_seat_position to_set_result
  set_seat_position-Served a n h = elim (set_position-Answer p arrivals a.seat (pos n)) [
    | refused r e ↦ absurd (ground arith)
    | unknown m' lo hi u e ↦ absurd (ground arith)
    | accepted k m' e b known o ↦
        let q : k ≡ n = ground arith in
        let r = set_position p arrivals a.seat (pos n) in
        Outcome-Served a n r (subst (λ x. Outcome p x r) q o) h
  ]

  status_ok-ok : (r : SetResult) → set_result_to_status r ≡ status_ok → r ≡ ok
  unfolding set_result_to_status
  status_ok-ok r h = ground arith

  -- When Move returns OK, the requested base lies in 0..1000, and the motor stands at its nearest
  -- percentage with no operation pending, or an operation towards that is pending whose command is the
  -- newest frame on the bus.
  pub move-Served :
      (a : Adjuster) (seat : SeatState)
      → (move (adjuster exit_on_error p arrivals) a seat).1 ≡ status_ok
      → (b n : ℕ) × (seat.position.base ≡ pos b)
        × IsNearest b n
        × Served p n (move (adjuster exit_on_error p arrivals) a seat).0
  move-Served a seat h = elim (move-Moved (adjuster exit_on_error p arrivals) a seat) [
    | wrong_seat w e ↦ absurd (ground arith)
    | bad_base w e ↦ absurd (ground arith)
    | asked b n row index e low near s t ↦
        (b, n, e, near, rw s (set_seat_position-Served a n (status_ok-ok _ (sym t ∙ h))))
  ]
