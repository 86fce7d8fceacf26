-- ===== src/SvcClient/Arrival.antt =====
-- From the client's request for a position to the end of its wait, over the adjuster's implementation.
use mathlib.Core.Path.{subst}
use kuksa_val_services.Prelude.{
  ap, refl, ℕ, pos, ◌≡◌, ◌≤ℤ◌, ◌∙◌, ◌+◌, ◌*◌, ◌/◌, ◌%◌, ltb, false, Bool, List, [], ◌∷◌, arith,
  if◌then◌else◌,
}
use kuksa_val_services.Grpc.{status_ok}
use kuksa_val_services.Controller.Types.{Platform, Stat, seat_ctrl_context_magic}
use kuksa_val_services.Controller.Commands.{is_ctl_running}
use kuksa_val_services.Controller.Thread.{ReadResult, continues, thread_loop}
use kuksa_val_services.Controller.Arriving.{Reports}
use kuksa_val_services.Adjuster.Impl.{Adjuster, adjuster, get_seat_position, on_reads}
use kuksa_val_services.Service.Percent.{IsNearest}
use kuksa_val_services.Service.Motor.{Served}
use kuksa_val_services.Service.Arrival.{Served-arrives, move_component-magic}
use kuksa_val_services.SvcClient.{
  Stub, move_seat_position, wait_loop, max_polls, reached, timed_out, location_of, to_component,
}
use kuksa_val_services.SvcClient.Moves.{service_stub, wait_loop_standing}
use kuksa_val_services.SvcClient.Commands.{move_seat_position-Served}

IsNearest-percent : (b n : ℕ) → IsNearest b n → n ≡ (b + 5) / 10
IsNearest-percent b n h = ground (arith, h.bounded, h.not_above, h.not_below)

module _ (exit_on_error : Bool) (p : Platform) (arrivals : ℕ → List ReadResult) where
  -- The stub of a client for the base of the driver's seat.
  abbrev pub stub : Stub Adjuster
  stub = service_stub (adjuster exit_on_error p arrivals)

  -- The adjuster after the client's call.
  abbrev pub asked : Adjuster → ℕ → Adjuster
  asked a b = (move_seat_position stub a 0 (pos 1) (pos 1) (pos b)).0

  asked-magic : (a : Adjuster) (b : ℕ) → (asked a b).seat.ctx.magic ≡ a.seat.ctx.magic
  unfolding move_seat_position
  asked-magic a b =
      move_component-magic exit_on_error p arrivals a (location_of (pos 1) (pos 1)) (to_component 0)
        (pos b)

  -- The adjuster once the reader thread has then read `rs`, and at last `r`.
  abbrev pub arrived : Adjuster → ℕ → List ReadResult → ReadResult → Adjuster
  arrived a b rs r = on_reads exit_on_error p (r ∷ []) (on_reads exit_on_error p rs (asked a b))

  asked_arrives :
      (a : Adjuster) (b : ℕ) (rs : List ReadResult) (r : ReadResult) (t : Stat)
      → a.seat.ctx.magic ≡ seat_ctrl_context_magic
      → (move_seat_position stub a 0 (pos 1) (pos 1) (pos b)).1 ≡ status_ok
      → (thread_loop p rs (asked a b).seat).0 ≡ continues
      → pos 0 ≤ℤ r.cnt
      → Reports p r.frame t
      → IsNearest b t.stat_pos
      → (is_ctl_running (arrived a b rs r).seat.ctx ≡ false)
        × (get_seat_position (arrived a b rs r) ≡ pos t.stat_pos)
  asked_arrives a b rs r t m good goes c reports near =
      let (c0, row, index, b', n, e, near', served) =
        move_seat_position-Served exit_on_error p arrivals a 0 (pos 1) (pos 1) (pos b) good in
      let same : n ≡ t.stat_pos =
        ground (arith, IsNearest-percent b' n near', IsNearest-percent b t.stat_pos near, e) in
      Served-arrives exit_on_error p t.stat_pos (asked a b) rs r t
        (subst (λ k. Served p k (asked a b)) same served) (asked-magic a b ∙ m) near.bounded goes c
        reports refl

  -- From the client to the motor and back: after a call of MoveComponent for the base b that returned
  -- OK on an initialised context, let the reader thread read anything that does not end its loop, and
  -- then a good status that reports the percentage nearest to b. Then no operation is pending,
  -- GetSeatPosition returns this percentage, and the client's wait for b succeeds with its tenfold if
  -- the last digit of b is below 5; else it ends by the timeout.
  pub client_arrives :
      (a : Adjuster) (b : ℕ) (rs : List ReadResult) (r : ReadResult) (t : Stat)
      → a.seat.ctx.magic ≡ seat_ctrl_context_magic
      → (move_seat_position stub a 0 (pos 1) (pos 1) (pos b)).1 ≡ status_ok
      → (thread_loop p rs (asked a b).seat).0 ≡ continues
      → pos 0 ≤ℤ r.cnt
      → Reports p r.frame t
      → IsNearest b t.stat_pos
      → (is_ctl_running (arrived a b rs r).seat.ctx ≡ false)
        × (get_seat_position (arrived a b rs r) ≡ pos t.stat_pos)
        × ((wait_loop stub 0 (pos 1) (pos 1) (pos b) max_polls 0 (arrived a b rs r)).1
            ≡ (if ltb (b % 10) 5 then reached (pos (t.stat_pos * 10)) else timed_out))
  client_arrives a b rs r t m good goes c reports near =
      let (over, known) = asked_arrives a b rs r t m good goes c reports near in
      let percent = IsNearest-percent b t.stat_pos near in
      let waited =
        wait_loop_standing (adjuster exit_on_error p arrivals) (arrived a b rs r) b
          (known ∙ ap pos percent) in
      (over, known, waited ∙ rw percent refl)
