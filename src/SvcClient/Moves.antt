-- ===== src/SvcClient/Moves.antt =====
-- The client against the seat service: the positions that count as reached.
use kuksa_val_services.Prelude.{
  ℕ, zero, suc, ◌+◌, ◌*◌, ◌/◌, ◌%◌, ◌<◌, pos, negsuc, ltb, true, ◌==◌, ◌≡◌, refl, Bool-cases, inl,
  inr, arith, if◌then◌else◌, Option, none, some,
}
use kuksa_val_services.Grpc.{status_ok}
use kuksa_val_services.Adjuster.Interface.{SeatAdjuster, seat_position_invalid}
use kuksa_val_services.Service.{
  SeatState, Position, current_position, move_component, reply_position,
}
use kuksa_val_services.Feeder.State.{status_is_ok}
use kuksa_val_services.SvcClient.{
  Stub, reached, timed_out, current_seat_position, wait_loop, is_hit, max_polls,
  get_component_position,
}
use kuksa_val_services.SvcClient.Waiting.{poll, misses, wait_loop_hits, wait_loop-misses}

abbrev pub to_reply : Option SeatState → Option (Option Position)
to_reply none = none
to_reply (some seat) = some (some seat.position)

module _ {S : Type 0} (adjuster : SeatAdjuster S) where
  -- The stub for a server that runs the service on an adjuster, where nothing else happens meanwhile.
  abbrev pub service_stub : Stub S
  service_stub = record {
    call_current_position = λ s location.
        let (seat, status) = current_position adjuster s location in (s, to_reply seat, status);
    call_move_component =
        λ s location component position. move_component adjuster s location component position;
  }

  -- The client reads the base position of the driver's seat.
  poll_service :
      (b : ℕ) (s : S)
      → poll service_stub 0 (pos 1) (pos 1) (pos b) s
        ≡ (s, reply_position (adjuster.get_seat_position s), status_ok)
  unfolding current_seat_position current_position status_is_ok
  poll_service b s = refl

  poll_is_ok :
      (b : ℕ) (s : S) → status_is_ok (poll service_stub 0 (pos 1) (pos 1) (pos b) s).2.code ≡ true
  unfolding status_is_ok
  poll_is_ok b s = rw (poll_service b s) refl

  -- A position n percent counts as the target b if their tens agree.
  is_hit-reply_position : (b n : ℕ) → is_hit 0 (pos b) (reply_position (pos n)) ≡ (b / 10 == n)
  unfolding get_component_position
  is_hit-reply_position b n = ground arith

  wait_loop_late :
      (b left retries : ℕ) (s : S)
      → misses service_stub 0 (pos 1) (pos 1) (pos b) s ≡ true
      → left + retries ≡ 150
      → (wait_loop service_stub 0 (pos 1) (pos 1) (pos b) (suc left) retries s).1 ≡ timed_out
  wait_loop_late b zero retries s miss e =
      ground (arith, wait_loop-misses service_stub 0 (pos 1) (pos 1) (pos b) zero retries s miss)
  wait_loop_late b (suc left) retries s miss e = ground (
    arith,
    wait_loop-misses service_stub 0 (pos 1) (pos 1) (pos b) (suc left) retries s miss,
    poll_service b s,
    wait_loop_late b left (retries + 1) s miss (omega arith),
  )

  -- When the motor stands at the percentage that MoveComponent has asked for a base position,
  -- the client's wait for this position succeeds at once if its last digit is below 5; else it ends by the
  -- timeout, because the service rounds and the client cuts off.
  pub wait_loop_standing :
      (s : S) (b : ℕ)
      → adjuster.get_seat_position s ≡ pos ((b + 5) / 10)
      → (wait_loop service_stub 0 (pos 1) (pos 1) (pos b) max_polls 0 s).1
        ≡ (if ltb (b % 10) 5 then reached (pos ((b + 5) / 10 * 10)) else timed_out)
  unfolding status_is_ok get_component_position
  wait_loop_standing s b g =
      let p = poll_service b s in
      let good = poll_is_ok b s in
      elim (Bool-cases (b / 10 == (b + 5) / 10)) [
        | inl same ↦ ground (
          arith,
          wait_loop_hits service_stub 0 (pos 1) (pos 1) (pos b) 150 0 s good (ground arith),
        )
        | inr other ↦ ground (arith, wait_loop_late b 150 0 s (ground arith) refl)
      ]

  -- While the position of the motor is not known, the client takes any target below 10 for reached, with
  -- the position -1.
  pub wait_loop_unknown :
      (s : S) (b : ℕ)
      → b < 10
      → adjuster.get_seat_position s ≡ seat_position_invalid
      → (wait_loop service_stub 0 (pos 1) (pos 1) (pos b) max_polls 0 s).1 ≡ reached (negsuc 0)
  unfolding get_component_position
  wait_loop_unknown s b h g =
      let p = poll_service b s in
      let good = poll_is_ok b s in
      ground
        (arith, wait_loop_hits service_stub 0 (pos 1) (pos 1) (pos b) 150 0 s good (ground arith))
