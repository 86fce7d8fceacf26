-- ===== src/Subscriber/Targets.antt =====
-- What a target position makes the subscriber ask of the adjuster.
use kuksa_val_services.Prelude.{
  ℕ, pos, ◌+◌, ◌/◌, ◌≡◌, refl, List, [], ◌∷◌, ◌++◌, String, leb, if◌then◌else◌, arith, ◌==◌,
}
use kuksa_val_services.Prelude.Dict.{String_eq}
use kuksa_val_services.Adjuster.Interface.{SeatAdjuster}
use kuksa_val_services.Subscriber.{
  Target, value_case, uint32_value_case, uint32_of, on_position, array, uint32, EntryUpdate,
  on_update, on_updates, on_responses,
}

-- The position that an update asks for: one up to 1000 under the seat's path.
abbrev pub target_of : Target → List ℕ
target_of (uint32 n) = if leb n 1000 then n ∷ [] else []
target_of _ = []

abbrev pub targets_of_update : String → EntryUpdate → List ℕ
targets_of_update name u = if String_eq.beq u.path name then target_of u.actuator_target else []

abbrev pub targets : String → List EntryUpdate → List ℕ
targets name [] = []
targets name (u ∷ us) = targets_of_update name u ++ targets name us

abbrev pub all_targets : String → List (List EntryUpdate) → List ℕ
all_targets name [] = []
all_targets name (r ∷ rs) = targets name r ++ all_targets name rs

module _ {S : Type 0} (adjuster : SeatAdjuster S) where
  -- One call of the adjuster for each position, in order.
  abbrev pub ask_all : List ℕ → S → S
  ask_all [] s = s
  ask_all (n ∷ ns) s = ask_all ns (adjuster.set_seat_position s (pos ((n + 5) / 10))).0

  pub ask_all-append : (ms ns : List ℕ) (s : S) → ask_all (ms ++ ns) s ≡ ask_all ns (ask_all ms s)
  ask_all-append [] ns s = refl
  ask_all-append (m ∷ ms) ns s = ask_all-append ms ns _

  on_target : (t : Target) → S → S
  on_target t s =
      if value_case t == uint32_value_case then on_position adjuster (uint32_of t) s else s

  on_target-target_of : (t : Target) (s : S) → on_target t s ≡ ask_all (target_of t) s
  unfolding on_target
  on_target-target_of (uint32 n) s = ground arith
  on_target-target_of (array k) s = ground arith
  on_target-target_of _ s = refl

  on_update-targets :
      (name : String) (u : EntryUpdate) (s : S)
      → on_update adjuster name u s ≡ ask_all (targets_of_update name u) s
  unfolding on_update on_target
  on_update-targets name u s = ground (arith, on_target-target_of u.actuator_target s)

  pub on_updates-targets :
      (name : String) (us : List EntryUpdate) (s : S)
      → on_updates adjuster name us s ≡ ask_all (targets name us) s
  unfolding on_updates
  on_updates-targets name [] s = refl
  on_updates-targets name (u ∷ us) s =
      let updated = on_updates-targets name us (on_update adjuster name u s) in
      let asked = on_update-targets name u s in
      let split = ask_all-append (targets_of_update name u) (targets name us) s in cc

  -- Whatever a subscription delivers, the subscriber asks the adjuster once for each target position up to
  -- 1000 of its path, in order, each rounded to percent, and for nothing else.
  pub on_responses-all_targets :
      (name : String) (rs : List (List EntryUpdate)) (s : S)
      → on_responses adjuster name rs s ≡ ask_all (all_targets name rs) s
  unfolding on_responses
  on_responses-all_targets name [] s = refl
  on_responses-all_targets name (r ∷ rs) s =
      let rest = on_responses-all_targets name rs (on_updates adjuster name r s) in
      let asked = on_updates-targets name r s in
      let split = ask_all-append (targets name r) (all_targets name rs) s in cc
