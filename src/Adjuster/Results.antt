-- ===== src/Adjuster/Results.antt =====
-- What the seat adjuster tells its clients.
use kuksa_val_services.Prelude.{
  ℕ, ℤ, pos, ◌==◌, ◌≡◌, ◌≤◌, ◌⊎◌, inl, inr, Bool, false, not, ◌&&◌, List, if◌then◌else◌, arith,
}
use kuksa_val_services.Controller.Types.{Seat, Platform, motor_pos_invalid, seat_ctrl_context_magic}
use kuksa_val_services.Controller.Commands.{get_position}
use kuksa_val_services.Controller.Thread.{ReadResult}
use kuksa_val_services.Controller.Invariant.{IsValid}
use kuksa_val_services.Controller.Outcomes.{
  refused, unknown, accepted, Outcome, stays, moves, fails, set_position-Answer,
}
use kuksa_val_services.Adjuster.Interface.{
  SetResult, ok, unspecific_error, can_io_error, no_frames, seat_position_invalid,
}
use kuksa_val_services.Adjuster.Telling.{last_fed, IsTelling, on_reads-IsTelling}
use kuksa_val_services.Adjuster.Impl.{
  Adjuster, get_seat_position, set_seat_position, to_set_result, on_reads,
}

-- The context is initialised, its thread runs, and the motor's position is known.
abbrev pub is_available : Adjuster → Bool
is_available a =
    a.seat.ctx.magic == seat_ctrl_context_magic
    && a.seat.ctx.running
    && not (a.seat.ctx.motor1_pos == motor_pos_invalid)

-- With a valid context GetSeatPosition is the motor's position when the context is initialised,
-- its thread runs and the position is known, which is a percentage then, and -1 in all other
-- cases.
pub get_seat_position-range :
    (a : Adjuster)
    → IsValid a.seat.ctx
    → (get_seat_position a
        ≡ (if is_available a then pos a.seat.ctx.motor1_pos else seat_position_invalid))
      × ((is_available a ≡ false) ⊎ (a.seat.ctx.motor1_pos ≤ 100))
unfolding get_seat_position get_position
get_seat_position-range a v = (ground arith, ground arith)

-- The results that a position within 0..100 can have.
pub data Expected : SetResult → Type 0 where
  done : Expected ok
  failed : Expected unspecific_error
  io_failed : Expected can_io_error
  silent : Expected no_frames

Outcome-Expected :
    {p : Platform} {d : ℕ} {r : Seat × ℤ} → Outcome p d r → Expected (to_set_result r.1)
unfolding to_set_result
Outcome-Expected (stays i e o) = rw o done
Outcome-Expected (moves m o l) = rw o done
Outcome-Expected (fails m (inl e)) = rw e failed
Outcome-Expected (fails m (inr e)) = rw e io_failed

module _ (exit_on_error : Bool) (p : Platform) (arrivals : ℕ → List ReadResult) where
  -- SetSeatPosition with a position in 0..100 on an initialised context never reports an invalid
  -- argument, nor an error that only opening the device can have.
  pub set_seat_position-Expected :
      (a : Adjuster) (n : ℕ)
      → a.seat.ctx.magic ≡ seat_ctrl_context_magic
      → n ≤ 100
      → Expected (set_seat_position exit_on_error p arrivals a (pos n)).1
  unfolding set_seat_position
  set_seat_position-Expected a n m h = elim (set_position-Answer p arrivals a.seat (pos n)) [
    | refused r e ↦ absurd (ground arith)
    | unknown m' lo hi u e ↦ rw e silent
    | accepted k m' e b known o ↦ Outcome-Expected o
  ]

module _ (exit_on_error : Bool) where
  -- `cb_` knows the position; -1 stands for no call.
  abbrev pub IsInformed : Adjuster → Type 0
  IsInformed a = IsTelling exit_on_error seat_position_invalid a

  IsInformed-told :
      (a : Adjuster) → IsInformed a → last_fed seat_position_invalid a.fed ≡ get_seat_position a
  unfolding get_seat_position get_position
  IsInformed-told a i = ground arith

  -- Whatever the reader thread reads, the position that the subscriber was last told is the one that
  -- GetSeatPosition returns, if the subscriber was told the motor's position before, and this goes on.
  pub on_reads-told :
      (p : Platform) (rs : List ReadResult) (a : Adjuster)
      → IsInformed a
      → IsInformed (on_reads exit_on_error p rs a)
        × (last_fed seat_position_invalid (on_reads exit_on_error p rs a).fed
            ≡ get_seat_position (on_reads exit_on_error p rs a))
  on_reads-told p rs a i =
      let j = on_reads-IsTelling exit_on_error p seat_position_invalid a i rs in
      (j, IsInformed-told (on_reads exit_on_error p rs a) j)
