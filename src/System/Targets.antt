-- ===== src/System/Targets.antt =====
-- From the data broker to the motor: a target position while the service runs.
use kuksa_val_services.Prelude.{
  ℕ, pos, ◌+◌, ◌/◌, ◌≤◌, ◌≡◌, List, [], ◌∷◌, ◌++◌, Bool, String, arith, All, both_branches,
}
use mathlib.Core.Path.{subst}
use kuksa_val_services.Prelude.Dict.{String_eq}
use kuksa_val_services.Controller.Types.{Platform}
use kuksa_val_services.Controller.Thread.{ReadResult}
use kuksa_val_services.Adjuster.Interface.{ok}
use kuksa_val_services.Adjuster.Impl.{Adjuster, set_seat_position}
use kuksa_val_services.Subscriber.{EntryUpdate, Target, uint32, array}
use kuksa_val_services.Subscriber.Targets.{targets, targets_of_update, target_of, ask_all}
use kuksa_val_services.Subscriber.Motor.{motor_adjuster, on_updates-Served}
use kuksa_val_services.Service.Percent.{IsNearest, base_percent-IsNearest}
use kuksa_val_services.Service.Motor.{Served, stands, under_way}
use kuksa_val_services.Main.{Threads}
use kuksa_val_services.System.{adjuster_of, on_system_event, responds, with_adjuster}

abbrev AllBounded : List ℕ → Type 0
AllBounded = All (λ n. n ≤ 1000)

AllBounded-append : (ms ns : List ℕ) → AllBounded ms → AllBounded ns → AllBounded (ms ++ ns)
AllBounded-append [] ns h k = k
AllBounded-append (m ∷ ms) ns (h, hs) k = (h, AllBounded-append ms ns hs k)

target_of-AllBounded : (t : Target) → AllBounded (target_of t)
target_of-AllBounded (uint32 n) = ground arith
target_of-AllBounded (array k) = tt
target_of-AllBounded _ = tt

update-AllBounded : (name : String) (u : EntryUpdate) → AllBounded (targets_of_update name u)
update-AllBounded name u =
    both_branches AllBounded (String_eq.beq u.path name) (target_of u.actuator_target) []
      (target_of-AllBounded u.actuator_target) tt

targets-AllBounded : (name : String) (us : List EntryUpdate) → AllBounded (targets name us)
targets-AllBounded name [] = tt
targets-AllBounded name (u ∷ us) =
    AllBounded-append (targets_of_update name u) (targets name us) (update-AllBounded name u)
      (targets-AllBounded name us)

last-le : (ms : List ℕ) (n : ℕ) → AllBounded (ms ++ n ∷ []) → n ≤ 1000
last-le [] n h = h.0
last-le (m ∷ ms) n h = last-le ms n h.1

-- The calls of the callback are no part of it.
Served-passed_on :
    {p : Platform} {n : ℕ} {a : Adjuster} → Served p n a → Served p n (record a { fed = [] })
Served-passed_on (stands i e) = stands i e
Served-passed_on (under_way m bytes packed rest e) = under_way m bytes packed rest e

-- When the running service gets a response of the subscription whose last target position for the seat is n,
-- and SetSeatPosition returns OK for it, then n is at most 1000, and the motor stands at the nearest
-- percentage with no operation pending, or an operation towards that is pending whose command is the newest
-- frame on the bus: whatever the targets before it, the frames that arrive meanwhile, and the state of the
-- service.
pub target-Served :
    (exit_on_error : Bool) (p : Platform) (name : String) (arrivals : ℕ → List ReadResult)
    (us : List EntryUpdate) (earlier : List ℕ) (n : ℕ) (t : Threads Adjuster)
    → targets name us ≡ earlier ++ n ∷ []
    → let a = ask_all (motor_adjuster exit_on_error p arrivals) earlier (adjuster_of t) in
      (set_seat_position exit_on_error p arrivals a (pos ((n + 5) / 10))).1 ≡ ok
      → IsNearest n ((n + 5) / 10)
        × Served p
            ((n + 5) / 10)
            (adjuster_of (on_system_event exit_on_error p name (responds arrivals us) t))
unfolding on_system_event with_adjuster
target-Served exit_on_error p name arrivals us earlier n t e h = (
  base_percent-IsNearest n (last-le earlier n (subst AllBounded e (targets-AllBounded name us))),
  Served-passed_on
      (on_updates-Served exit_on_error p arrivals name us earlier n (adjuster_of t) e h),
)
