-- ===== src/Adjuster/Interface.antt =====
-- seat_adjuster.h: the abstract class SeatAdjuster, over the state of an implementation.
use kuksa_val_services.Prelude.{ℤ, negsuc, ℕ, Option}

abbrev pub seat_position_invalid : ℤ
seat_position_invalid = negsuc 0

pub data SetResult : Type 0 where
  ok unspecific_error no_can can_if_index_error can_bind_error can_io_error invalid_arg no_frames :
      SetResult

-- A callback is a number; `none` is an empty std::function.
pub record SeatAdjuster (S : Type 0) : Type 0 where
  pub get_seat_position : S → ℤ
  pub set_seat_position : S → ℤ → S × SetResult
  pub subscribe_position : S → Option ℕ → S
