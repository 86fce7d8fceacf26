-- ===== src/Subscriber/Motor.antt =====
-- Target positions of the data broker down to the motor: the subscriber over the adjuster's implementation.
use kuksa_val_services.Prelude.{ℕ, pos, ◌+◌, ◌/◌, ◌≡◌, List, [], ◌∷◌, ◌++◌, Bool, String}
use kuksa_val_services.Controller.Types.{Platform}
use kuksa_val_services.Controller.Thread.{ReadResult}
use kuksa_val_services.Adjuster.Interface.{SeatAdjuster, ok}
use kuksa_val_services.Adjuster.Impl.{Adjuster, adjuster, set_seat_position}
use kuksa_val_services.Subscriber.{EntryUpdate, on_updates}
use kuksa_val_services.Subscriber.Targets.{targets, ask_all, ask_all-append, on_updates-targets}
use kuksa_val_services.Service.Motor.{Served, set_seat_position-Served}

module _ (exit_on_error : Bool) (p : Platform) (arrivals : ℕ → List ReadResult) where
  abbrev pub motor_adjuster : SeatAdjuster Adjuster
  motor_adjuster = adjuster exit_on_error p arrivals

  pub on_updates-Served :
      (name : String) (us : List EntryUpdate) (earlier : List ℕ) (n : ℕ) (a : Adjuster)
      → targets name us ≡ earlier ++ n ∷ []
      → (set_seat_position exit_on_error p arrivals
          (ask_all motor_adjuster earlier a)
          (pos ((n + 5) / 10))).1
        ≡ ok
      → Served p ((n + 5) / 10) (on_updates motor_adjuster name us a)
  on_updates-Served name us earlier n a e h = rw (on_updates-targets motor_adjuster name us a) (
      rw e (
        rw (ask_all-append motor_adjuster earlier (n ∷ []) a) (
          set_seat_position-Served exit_on_error p arrivals (ask_all motor_adjuster earlier a)
            ((n + 5) / 10) h)))
