-- ===== src/Subscriber.antt =====
-- seat_service/src/bin/seat_service/seat_position_subscriber.cc: the subscriber to the target position of
-- the seat, over any seat adjuster.
pub mod Attempts
pub mod Targets
pub mod Motor
use kuksa_val_services.Prelude.{
  ℕ, ℤ, pos, ◌+◌, ◌/◌, ltb, ◌==◌, Bool, true, false, List, [], ◌∷◌, String, if◌then◌else◌,
}
use kuksa_val_services.Prelude.Dict.{String_eq}
use kuksa_val_services.Grpc.{StatusCode}
use kuksa_val_services.Adjuster.Interface.{SeatAdjuster, SetResult}

-- The oneof `value` of kuksa.val.v1.Datapoint. Only a uint32 is looked into; `array k` is the k-th of the
-- array fields.
pub data Target : Type 0 where
  not_set string bool int32 int64 uint64 float double : Target
  uint32 array : ℕ → Target

-- The field number of kuksa.val.v1.Datapoint, 0 if none is set.
abbrev pub value_case : Target → ℕ
value_case not_set = 0
value_case string = 11
value_case bool = 12
value_case int32 = 13
value_case int64 = 14
value_case (uint32 n) = 15
value_case uint64 = 16
value_case float = 17
value_case double = 18
value_case (array k) = 21 + k

-- sdv::databroker::v1::Datapoint::kUint32Value, with which the code compares.
abbrev pub uint32_value_case : ℕ
uint32_value_case = 15

-- The accessor uint32(), which is 0 where another field is set.
abbrev pub uint32_of : Target → ℕ
uint32_of (uint32 n) = n
uint32_of _ = 0

pub record EntryUpdate : Type 0 where
  pub path : String
  pub actuator_target : Target

-- One pass of the loop in Run: does WaitForConnected succeed, the responses read until Read fails, and the
-- status of Finish.
pub record Attempt : Type 0 where
  pub connects : Bool
  pub responses : List (List EntryUpdate)
  pub finish : StatusCode

-- The subscriber with its adjuster; `failures` is the local variable of Run.
pub record Subscriber (S : Type 0) : Type 0 where
  pub adjuster_state : S
  pub seat_pos_name : String
  pub running : Bool
  pub failures : ℕ

-- SeatPositionSubscriber::Shutdown; it also cancels the call that is read from, so that Read fails.
unfoldable pub shutdown : {S : Type 0} → Subscriber S → Subscriber S
shutdown s = record s { running = false }

-- The first statements of Run.
unfoldable pub run_start : {S : Type 0} → Subscriber S → Subscriber S
run_start s = record s { running = true; failures = 0 }

-- After Finish: what becomes of the failures, and of the loop.
unfoldable pub after_finish : {S : Type 0} → StatusCode → Subscriber S → Subscriber S
after_finish StatusCode.ok s = record s { failures = 0 }
after_finish StatusCode.not_found s =
    let failures = s.failures + 1 in
    record s { failures = failures; running = if ltb 3 failures then false else s.running }
after_finish _ s = s

module _ {S : Type 0} (adjuster : SeatAdjuster S) where
  abbrev pub on_position : ℕ → S → S
  on_position position s =
      if ltb 1000 position then s else (adjuster.set_seat_position s (pos ((position + 5) / 10))).0

  unfoldable pub on_update : String → EntryUpdate → S → S
  on_update name u s =
      if String_eq.beq u.path name
      then (if value_case u.actuator_target == uint32_value_case
          then on_position (uint32_of u.actuator_target) s
          else s)
      else s

  unfoldable pub on_updates : String → List EntryUpdate → S → S
  unfolding on_update
  on_updates name [] s = s
  on_updates name (u ∷ us) s = on_updates name us (on_update name u s)

  unfoldable pub on_responses : String → List (List EntryUpdate) → S → S
  unfolding on_updates
  on_responses name [] s = s
  on_responses name (r ∷ rs) s = on_responses name rs (on_updates name r s)

  unfoldable pub attempt : Attempt → Subscriber S → Subscriber S
  unfolding on_responses after_finish
  attempt a s =
      if a.connects
      then after_finish a.finish
          (record s { adjuster_state = on_responses s.seat_pos_name a.responses s.adjuster_state })
      else s

  -- The loop of Run over its passes.
  unfoldable pub run_loop : List Attempt → Subscriber S → Subscriber S
  unfolding attempt
  run_loop [] s = s
  run_loop (a ∷ rest) s = elim s.running [ false ↦ s | true ↦ run_loop rest (attempt a s) ]
