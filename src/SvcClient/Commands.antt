-- ===== src/SvcClient/Commands.antt =====
-- From the command line client down to the motor.
use mathlib.Core.Path.{subst}
use kuksa_val_services.Prelude.{
  ℕ, zero, suc, ℤ, pos, ◌≡◌, ◌≢◌, refl, Bool, List, arith, sym, ap, ◌∙◌,
}
use kuksa_val_services.Grpc.{Status, status_ok}
use kuksa_val_services.Controller.Types.{Platform}
use kuksa_val_services.Controller.Thread.{ReadResult}
use kuksa_val_services.Adjuster.Impl.{Adjuster, adjuster}
use kuksa_val_services.Service.{
  SeatState, SeatLocation, component_other, move, move_component, reply_position,
}
use kuksa_val_services.Service.Percent.{IsNearest}
use kuksa_val_services.Service.Requests.{move_component-move}
use kuksa_val_services.Service.Motor.{Served, move-Served}
use kuksa_val_services.SvcClient.{move_seat_position, location_of, to_u32}
use kuksa_val_services.SvcClient.Moves.{service_stub}

abbrev seat_at : SeatLocation → ℤ → SeatState
seat_at location base = record {
  location = location;
  position = record (reply_position base) { base = base };
}

module _ (exit_on_error : Bool) (p : Platform) (arrivals : ℕ → List ReadResult) where
  component_refused :
      (a : Adjuster) (location : SeatLocation) (c : ℕ) (position : ℤ)
      → (move_component
          (adjuster exit_on_error p arrivals)
          a
          location
          (component_other (suc c))
          position).1
        ≢ status_ok
  unfolding move_component
  component_refused a location c position = λ h. ground arith

  driver_seat :
      (a : Adjuster) (seat : SeatState)
      → (move (adjuster exit_on_error p arrivals) a seat).1 ≡ status_ok
      → (seat.location.row ≡ 1) × (seat.location.index ≡ 1)
  unfolding move
  driver_seat a seat h = ground arith

  -- When the client's call of MoveComponent on a server with the adjuster's implementation returns OK, it
  -- was for the base of the seat in row 1 with index 1 and for a position in 0..1000, and the motor stands
  -- at its nearest percentage with no operation pending, or an operation towards that is pending whose
  -- command is the newest frame on the bus.
  pub move_seat_position-Served :
      (a : Adjuster) (component : ℕ) (row index position : ℤ)
      → (move_seat_position
          (service_stub (adjuster exit_on_error p arrivals))
          a
          component
          row
          index
          position).1
        ≡ status_ok
      → (component ≡ 0)
        × (to_u32 row ≡ 1)
        × (to_u32 index ≡ 1)
        × (b : ℕ) × (n : ℕ) × (position ≡ pos b)
        × IsNearest b n
        × Served p n
            (move_seat_position
              (service_stub (adjuster exit_on_error p arrivals))
              a
              component
              row
              index
              position).0
  unfolding move_seat_position
  move_seat_position-Served a (suc c) row index position h =
      absurd (component_refused a (location_of row index) c position h)
  move_seat_position-Served a zero row index position h =
      let seat : SeatState = seat_at (location_of row index) position in
      let same = (move_component-move (adjuster exit_on_error p arrivals) a seat 0).0 in
      let good = sym (ap (λ (r : Adjuster × Status). r.1) same) ∙ h in
      let (row_is, index_is) = driver_seat a seat good in
      let (b, n, e, near, served) = move-Served exit_on_error p arrivals a seat good in
      let back = subst (λ (r : Adjuster × Status). Served p n r.0) (sym same) served in
      (refl, row_is, index_is, b, n, e, near, back)
