-- ===== src/DataFeeder.antt =====
-- seat_service/src/bin/seat_service/seat_data_feeder.cc: the callback that turns positions of the seat
-- into values for the data broker.
pub mod Positions
use kuksa_val_services.Prelude.{
  ℕ, zero, suc, ℤ, pos, negsuc, ◌*◌, leb, List, [], ◌∷◌, String, if◌then◌else◌,
}
use kuksa_val_services.Feeder.Datapoint.{
  Datapoint, failure_value, uint32_value, not_available, invalid_value,
}
use kuksa_val_services.Feeder.State.{Feeder, feed_value}

-- The datapoint for a position in percent: scaled to 0..1000, or the failure for -1 or another value.
unfoldable pub position_datapoint : ℤ → Datapoint
position_datapoint (pos n) =
    if leb n 100 then uint32_value (n * 10) else failure_value invalid_value
position_datapoint (negsuc zero) = failure_value not_available
position_datapoint (negsuc (suc n)) = failure_value invalid_value

-- The callback that the constructor gives to SubscribePosition.
unfoldable pub on_seat_position : String → ℤ → Feeder → Feeder
on_seat_position seat_pos_name position_in_percent f =
    feed_value seat_pos_name (position_datapoint position_in_percent) f

-- All calls of the callback, the newest first, as the adjuster records them. It is the only one that the
-- service subscribes.
unfoldable pub deliver : String → List (ℕ × ℤ) → Feeder → Feeder
unfolding on_seat_position
deliver name [] f = f
deliver name ((cb, position) ∷ older) f = on_seat_position name position (deliver name older f)
