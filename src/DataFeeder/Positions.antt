-- ===== src/DataFeeder/Positions.antt =====
-- What the data broker learns of the seat's position.
use kuksa_val_services.Prelude.{
  ℕ, ℤ, pos, ◌*◌, ◌≡◌, ◌≢◌, ◌≤◌, refl, true, Bool, List, [], ◌∷◌, String, some, arith,
}
use kuksa_val_services.Prelude.Dict.{lookup, lookup-insert, String_eq}
use kuksa_val_services.Controller.Types.{Platform, motor_pos_invalid}
use kuksa_val_services.Controller.Thread.{ReadResult}
use kuksa_val_services.Adjuster.Interface.{SeatAdjuster, seat_position_invalid}
use kuksa_val_services.Adjuster.Impl.{Adjuster, on_reads, callback_position}
use kuksa_val_services.Adjuster.Results.{IsInformed, on_reads-told}
use kuksa_val_services.Adjuster.Telling.{last_fed}
use kuksa_val_services.Feeder.Datapoint.{uint32_value}
use kuksa_val_services.Feeder.State.{Feeder, feed_value}
use kuksa_val_services.Subscriber.{uint32, on_update}
use kuksa_val_services.DataFeeder.{position_datapoint, deliver}

deliver_active :
    (name : String) (fed : List (ℕ × ℤ)) (f : Feeder)
    → f.feeder_active ≡ true
    → (deliver name fed f).feeder_active ≡ true
unfolding deliver feed_value
deliver_active name [] f a = a
deliver_active name ((cb, z) ∷ older) f a = ground (arith, deliver_active name older f a)

-- The newest position is the one that is stored.
lookup-deliver :
    (name : String) (start : ℤ) (fed : List (ℕ × ℤ)) (f : Feeder)
    → f.feeder_active ≡ true
    → fed ≢ []
    → lookup name (deliver name fed f).stored_values
      ≡ some (position_datapoint (last_fed start fed))
unfolding deliver feed_value
lookup-deliver name start [] f a e = absurd (e refl)
lookup-deliver name start ((cb, z) ∷ older) f a e =
    let g : Feeder = deliver name older f in
    ground (
      arith,
      deliver_active name older f a,
      lookup-insert name name (position_datapoint z) g.stored_values,
      String_eq.beq_iff name name,
    )

-- The motor's position n in 0..100 is fed as n * 10.
position_datapoint-callback_position :
    (n : ℕ) → n ≤ 100 → position_datapoint (callback_position n) ≡ uint32_value (n * 10)
unfolding position_datapoint
position_datapoint-callback_position n h = ground arith

told_something :
    (fed : List (ℕ × ℤ)) (n : ℕ)
    → last_fed seat_position_invalid fed ≡ callback_position n
    → n ≢ motor_pos_invalid
    → fed ≢ []
told_something [] n h k = λ e. ground arith
told_something ((cb, z) ∷ older) n h k = λ e. ground arith

-- From the CAN frames to the data broker: once the reader thread has read anything, from an adjuster
-- that has told its callback the position, a known position of the motor is stored for the broker under
-- the seat's name, scaled to 0..1000, if all calls of the callback have reached a feeder that is active.
pub on_reads-deliver :
    (exit_on_error : Bool) (p : Platform) (rs : List ReadResult) (a : Adjuster) (name : String)
    (f : Feeder)
    → IsInformed exit_on_error a
    → f.feeder_active ≡ true
    → (on_reads exit_on_error p rs a).seat.ctx.motor1_pos ≤ 100
    → lookup name (deliver name (on_reads exit_on_error p rs a).fed f).stored_values
      ≡ some (uint32_value ((on_reads exit_on_error p rs a).seat.ctx.motor1_pos * 10))
on_reads-deliver exit_on_error p rs a name f i act h =
    let b : Adjuster = on_reads exit_on_error p rs a in
    let j : IsInformed exit_on_error b = (on_reads-told exit_on_error p rs a i).0 in
    let n : ℕ = b.seat.ctx.motor1_pos in
    let some_fed = told_something b.fed n j.told (λ e. omega arith) in
    let kept = lookup-deliver name seat_position_invalid b.fed f act some_fed in
    let scaled = position_datapoint-callback_position n h in ground (arith, j.told, kept, scaled)

-- The position that is fed for a percentage, set as the target again, makes the subscriber ask the
-- adjuster for this percentage.
pub position_datapoint-on_update :
    {S : Type 0} (adjuster : SeatAdjuster S) (name : String) (n v : ℕ) (s : S)
    → position_datapoint (pos n) ≡ uint32_value v
    → on_update adjuster name (record { path = name; actuator_target = uint32 v }) s
      ≡ (adjuster.set_seat_position s (pos n)).0
unfolding position_datapoint on_update
position_datapoint-on_update adjuster name n v s e = ground (arith, String_eq.beq_iff name name)
