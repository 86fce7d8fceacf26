-- ===== src/System/Sound.antt =====
-- The adjuster while the service runs.
use kuksa_val_services.Prelude.{ℕ, ℤ, Bool, List, [], String}
use kuksa_val_services.Controller.Types.{Seat, Platform}
use kuksa_val_services.Controller.Thread.{ReadResult, thread_loop}
use kuksa_val_services.Controller.SetPosition.{set_position}
use kuksa_val_services.Controller.Invariant.{IsValid, thread_loop-IsValid, set_position-IsValid}
use kuksa_val_services.Adjuster.Impl.{Adjuster, adjuster, set_seat_position, on_reads, with_seat}
use kuksa_val_services.Adjuster.Telling.{
  IsTelling, on_reads-IsTelling, set_seat_position-IsTelling, absorb-seat,
}
use kuksa_val_services.System.{
  SystemEvent, reads, requests, component_requests, responds, finishes, feeder_steps, connects,
  ends, subscriber_starts, new_adjuster,
}
use kuksa_val_services.System.Requests.{move-keeps, move_component-keeps, on_updates-keeps}

module _ (exit_on_error : Bool) (p : Platform) where
  abbrev pub IsSound : ℤ → Adjuster → Type 0
  IsSound first a = IsTelling exit_on_error first a × IsValid a.seat.ctx

  with_seat-IsValid :
      (s : Seat) (a : Adjuster) → IsValid s.ctx → IsValid (with_seat exit_on_error s a).seat.ctx
  unfolding with_seat
  with_seat-IsValid s a v =
      rw (absorb-seat exit_on_error s.outputs (record a { seat = record s { outputs = [] } })) v

  on_reads-IsSound :
      (first : ℤ) (rs : List ReadResult) (a : Adjuster)
      → IsSound first a
      → IsSound first (on_reads exit_on_error p rs a)
  unfolding on_reads
  on_reads-IsSound first rs a (i, v) = (
    on_reads-IsTelling exit_on_error p first a i rs,
    with_seat-IsValid (thread_loop p rs a.seat).1 a (thread_loop-IsValid p rs a.seat v),
  )

  set_seat_position-IsSound :
      (first : ℤ) (arrivals : ℕ → List ReadResult) (a : Adjuster) (d : ℤ)
      → IsSound first a
      → IsSound first (set_seat_position exit_on_error p arrivals a d).0
  unfolding set_seat_position
  set_seat_position-IsSound first arrivals a d (i, v) = (
    set_seat_position-IsTelling exit_on_error p first a i arrivals d,
    with_seat-IsValid (set_position p arrivals a.seat d).0 a
        (set_position-IsValid p arrivals a.seat d v),
  )

  module _ (name : String) where
    -- No event stops the adjuster from telling its callback the positions.
    pub new_adjuster-IsSound :
        (first : ℤ) (e : SystemEvent) (a : Adjuster)
        → IsSound first a
        → IsSound first (new_adjuster exit_on_error p name e a)
    new_adjuster-IsSound first (reads rs) a h = on_reads-IsSound first rs a h
    new_adjuster-IsSound first (requests arrivals seat) a h =
        move-keeps (adjuster exit_on_error p arrivals) (IsSound first)
          (set_seat_position-IsSound first arrivals) a seat h
    new_adjuster-IsSound first (component_requests arrivals location component position) a h =
        move_component-keeps (adjuster exit_on_error p arrivals) (IsSound first)
          (set_seat_position-IsSound first arrivals) a location component position h
    new_adjuster-IsSound first (responds arrivals updates) a h =
        on_updates-keeps (adjuster exit_on_error p arrivals) (IsSound first)
          (set_seat_position-IsSound first arrivals) name updates a h
    new_adjuster-IsSound first (feeder_steps e rs) a h = on_reads-IsSound first rs a h
    new_adjuster-IsSound first (finishes code) a h = h
    new_adjuster-IsSound first (connects b) a h = h
    new_adjuster-IsSound first subscriber_starts a h = h
    new_adjuster-IsSound first ends a h = h
