-- ===== src/Service/Requests.antt =====
-- What the three remote calls do, over any seat adjuster.
use kuksa_val_services.Prelude.{
  ℕ, ℤ, pos, negsuc, ◌≡◌, ◌≢◌, ◌≤◌, ◌<ℤ◌, ◌+◌, ◌*◌, ◌/◌, ◌⊎◌, inl, inr, arith, refl, false, some,
  Bool-cases, if◌then◌else◌,
}
use kuksa_val_services.Grpc.{Status, status_ok}
use kuksa_val_services.Adjuster.Interface.{SeatAdjuster}
use kuksa_val_services.Service.{
  SeatLocation, SeatState, base_component, component_other, move, move_component, current_position,
  set_result_to_status, is_wrong_seat, is_bad_base, unknown_location, invalid_base,
  unsupported_component,
}
use kuksa_val_services.Service.Percent.{IsNearest, base_percent-IsNearest}

module _ {S : Type 0} (adjuster : SeatAdjuster S) where
  -- The ways in which Move ends.
  pub data Moved (s : S) (seat : SeatState) (r : S × Status) : Type 0 where
    wrong_seat :
        (seat.location.row ≢ 1) ⊎ (seat.location.index ≢ 1)
        → r ≡ (s, unknown_location)
        → Moved s seat r
    bad_base :
        (seat.position.base <ℤ pos 0) ⊎ (pos 1000 <ℤ seat.position.base)
        → r ≡ (s, invalid_base)
        → Moved s seat r
    asked :
        (b n : ℕ)
        → seat.location.row ≡ 1
        → seat.location.index ≡ 1
        → seat.position.base ≡ pos b
        → b ≤ 1000
        → IsNearest b n
        → r.0 ≡ (adjuster.set_seat_position s (pos n)).0
        → r.1 ≡ set_result_to_status (adjuster.set_seat_position s (pos n)).1
        → Moved s seat r

  good_seat :
      (s : S) (seat : SeatState) (z : ℤ)
      → is_wrong_seat seat.location ≡ false
      → seat.position.base ≡ z
      → is_bad_base z ≡ false
      → Moved s seat (move adjuster s seat)
  unfolding move
  good_seat s seat (negsuc n) l e g = absurd (ground arith)
  good_seat s seat (pos b) l e g =
      asked b ((b + 5) / 10) (ground arith) (ground arith) e (ground arith)
        (base_percent-IsNearest b (ground arith)) (ground arith) (ground arith)

  -- Move refuses a seat other than the driver's with OUT_OF_RANGE and a base outside 0..1000 with
  -- INVALID_ARGUMENT, and then asks nothing of the adjuster. Else it asks the adjuster once, for the
  -- nearest percentage, which lies in 0..100, and its status tells the adjuster's result.
  pub move-Moved : (s : S) (seat : SeatState) → Moved s seat (move adjuster s seat)
  move-Moved s seat = elim (Bool-cases (is_wrong_seat seat.location)) [
    | inl wrong ↦ wrong_seat (ground arith) (unfold move in ground arith)
    | inr right ↦ elim (Bool-cases (is_bad_base seat.position.base)) [
      | inl bad ↦ bad_base (ground arith) (unfold move in ground arith)
      | inr good ↦ good_seat s seat seat.position.base right refl good
    ]
  ]

  -- MoveComponent for the base does what Move does for a seat with that base position; for any other
  -- component of the driver's seat it changes nothing and says NOT_FOUND.
  pub move_component-move :
      (s : S) (seat : SeatState) (n : ℕ)
      → (move_component adjuster s seat.location base_component seat.position.base
          ≡ move adjuster s seat)
        × (move_component adjuster s seat.location (component_other n) seat.position.base
            ≡ (s, if is_wrong_seat seat.location then unknown_location else unsupported_component))
  unfolding move_component move
  move_component-move s seat n = (ground arith, ground arith)

  current_position-base :
      (s : S) (location : SeatLocation) (seat : SeatState) (n : ℕ)
      → adjuster.get_seat_position s ≡ pos n
      → current_position adjuster s location ≡ (some seat, status_ok)
      → (is_wrong_seat seat.location ≡ false) × (seat.position.base ≡ pos (n * 10))
  unfolding current_position
  current_position-base s location seat n g e = elim (Bool-cases (is_wrong_seat location)) [
    | inl wrong ↦ ground arith
    | inr right ↦ ground arith
  ]

  -- A client that moves the driver's seat to the base position that CurrentPosition has reported
  -- for a percentage within 0..100 asks the adjuster for exactly this percentage, and gets the
  -- status of the result.
  pub move-current_position :
      (s : S) (location : SeatLocation) (seat : SeatState) (n : ℕ)
      → adjuster.get_seat_position s ≡ pos n
      → n ≤ 100
      → current_position adjuster s location ≡ (some seat, status_ok)
      → move adjuster s seat ≡ (
        (adjuster.set_seat_position s (pos n)).0,
        set_result_to_status (adjuster.set_seat_position s (pos n)).1,
      )
  unfolding move
  move-current_position s location seat n g h e =
      ground (arith, current_position-base s location seat n g e)
