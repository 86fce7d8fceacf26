-- ===== src/System/Requests.antt =====
-- What every call of SetSeatPosition keeps, the requests and the subscriber keep too.
use kuksa_val_services.Prelude.{ℕ, ℤ, List, [], ◌∷◌, String, not, both_branches}
use kuksa_val_services.Grpc.{Status}
use kuksa_val_services.Adjuster.Interface.{SeatAdjuster}
use kuksa_val_services.Service.{
  SeatState, SeatLocation, SeatComponent, move, move_component, set_base, is_wrong_seat,
  is_bad_base, is_base, unknown_location, invalid_base, unsupported_component,
}
use kuksa_val_services.Subscriber.{EntryUpdate, on_updates}
use kuksa_val_services.Subscriber.Targets.{ask_all, targets, on_updates-targets}

module _ {S : Type 0} (adjuster : SeatAdjuster S) (P : S → Type 0)
    (keeps : (s : S) (d : ℤ) → P s → P (adjuster.set_seat_position s d).0) where
  abbrev Q : S × Status → Type 0
  Q r = P r.0

  set_base-keeps : (s : S) (base : ℤ) → P s → P (set_base adjuster s base).0
  set_base-keeps s base h = keeps s _ h

  pub move-keeps : (s : S) (seat : SeatState) → P s → P (move adjuster s seat).0
  unfolding move
  move-keeps s seat h =
      both_branches Q (is_wrong_seat seat.location) (s, unknown_location) _ h
        (both_branches Q (is_bad_base seat.position.base) (s, invalid_base) _ h
          (set_base-keeps s seat.position.base h))

  pub move_component-keeps :
      (s : S) (location : SeatLocation) (component : SeatComponent) (position : ℤ)
      → P s
      → P (move_component adjuster s location component position).0
  unfolding move_component
  move_component-keeps s location component position h =
      both_branches Q (is_wrong_seat location) (s, unknown_location) _ h
        (both_branches Q (not (is_base component)) (s, unsupported_component) _ h
          (both_branches Q (is_bad_base position) (s, invalid_base) _ h
            (set_base-keeps s position h)))

  ask_all-keeps : (ns : List ℕ) (s : S) → P s → P (ask_all adjuster ns s)
  ask_all-keeps [] s h = h
  ask_all-keeps (n ∷ ns) s h = ask_all-keeps ns _ (keeps s _ h)

  pub on_updates-keeps :
      (name : String) (us : List EntryUpdate) (s : S) → P s → P (on_updates adjuster name us s)
  on_updates-keeps name us s h =
      rw (on_updates-targets adjuster name us s) (ask_all-keeps (targets name us) s h)
