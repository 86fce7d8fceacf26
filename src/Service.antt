-- ===== src/Service.antt =====
-- seat_service/src/lib/grpc_services/seats_grpc_service/seats_grpc_service.cc: the gRPC service,
-- over any seat adjuster.
pub mod Motor
pub mod Arrival
pub mod Percent
pub mod Requests
use kuksa_val_services.Prelude.{
  ℕ, ℤ, pos, negsuc, pos_part, ltb_ℤ, ◌==ℤ◌, ◌==◌, ◌+◌, ◌*◌, ◌/◌, Bool, true, false, not, ◌||◌,
  if◌then◌else◌, Option, none, some,
}
use kuksa_val_services.Grpc.{
  Status, status_ok, failure, internal, out_of_range, invalid_argument, not_found,
}
use kuksa_val_services.Adjuster.Interface.{
  SeatAdjuster, SetResult, ok, unspecific_error, no_can, can_if_index_error, can_bind_error,
  can_io_error, invalid_arg, no_frames, seat_position_invalid,
}

-- seats.proto: SeatLocation, Position, Seat, SeatComponent.
pub record SeatLocation : Type 0 where
  pub row : ℕ
  pub index : ℕ

pub record Position : Type 0 where
  pub base : ℤ
  pub cushion : ℤ
  pub lumbar : ℤ
  pub side_bolster : ℤ
  pub head_restraint : ℤ

-- A seat of a request or a reply.
pub record SeatState : Type 0 where
  pub location : SeatLocation
  pub position : Position

-- `component_other` is any component but BASE.
pub data SeatComponent : Type 0 where
  base_component : SeatComponent
  component_other : ℕ → SeatComponent

abbrev pub is_base : SeatComponent → Bool
is_base base_component = true
is_base (component_other n) = false

unfoldable pub set_result_to_status : SetResult → Status
set_result_to_status ok = status_ok
set_result_to_status unspecific_error = failure internal "Unspecific error"
set_result_to_status no_can = failure internal "SocketCAN not available"
set_result_to_status can_if_index_error = failure internal "CAN interface index error"
set_result_to_status can_bind_error = failure internal "SocketCAN bind() error"
set_result_to_status can_io_error = failure internal "SocketCAN i/o error"
set_result_to_status invalid_arg = failure internal "Invalid argument(s)"
set_result_to_status no_frames = failure internal "Can signals not coming from ECU"

abbrev pub unknown_location : Status
unknown_location = failure out_of_range "Unknown seat location"

abbrev pub unsupported_component : Status
unsupported_component = failure not_found "Unsupported seat component"

abbrev pub invalid_base : Status
invalid_base = failure invalid_argument "Invalid base position"

-- Only the driver's seat, row 1 and index 1, is there.
abbrev pub is_wrong_seat : SeatLocation → Bool
is_wrong_seat l = not (l.row == 1) || not (l.index == 1)

abbrev pub is_bad_base : ℤ → Bool
is_bad_base b = ltb_ℤ b (pos 0) || ltb_ℤ (pos 1000) b

-- `(base + 5) / 10`, for a base that is not negative.
abbrev pub base_percent : ℤ → ℤ
base_percent b = pos ((pos_part b + 5) / 10)

-- An `int` times 10.
abbrev pub times_ten : ℤ → ℤ
times_ten (pos n) = pos (n * 10)
times_ten (negsuc n) = negsuc (n * 10 + 9)

-- Every component position is -1, but for the base if the adjuster knows it.
abbrev pub reply_position : ℤ → Position
reply_position percent = record {
  base = if percent ==ℤ seat_position_invalid then negsuc 0 else times_ten percent;
  cushion = negsuc 0;
  lumbar = negsuc 0;
  side_bolster = negsuc 0;
  head_restraint = negsuc 0;
}

module _ {S : Type 0} (adjuster : SeatAdjuster S) where
  -- The last two statements of Move and MoveComponent.
  abbrev pub set_base : S → ℤ → S × Status
  set_base s b =
      let (t, result) = adjuster.set_seat_position s (base_percent b) in
      (t, set_result_to_status result)

  unfoldable pub move : S → SeatState → S × Status
  move s seat =
      if is_wrong_seat seat.location
      then (s, unknown_location)
      else if is_bad_base seat.position.base
      then (s, invalid_base)
      else set_base s seat.position.base

  unfoldable pub move_component : S → SeatLocation → SeatComponent → ℤ → S × Status
  move_component s location component base_position =
      if is_wrong_seat location
      then (s, unknown_location)
      else if not (is_base component)
      then (s, unsupported_component)
      else if is_bad_base base_position
      then (s, invalid_base)
      else set_base s base_position

  -- The reply's seat, which stays unset on an error, and the status.
  unfoldable pub current_position : S → SeatLocation → Option SeatState × Status
  current_position s request = if is_wrong_seat request then (none, unknown_location) else (
    some (record { location = request; position = reply_position (adjuster.get_seat_position s) }),
    status_ok,
  )
