-- ===== src/Main/Startup.antt =====
-- What the service starts with.
use kuksa_val_services.Prelude.{
  ℕ, ◌≡◌, ◌≤◌, ◌↔◌, ◌⊎◌, ◌≢◌, inl, inr, refl, true, List, [], ◌∷◌, Option, none, some, Bool-cases,
  String, length, arith,
}
use kuksa_val_services.Prelude.Dict.{lookup, insert_new, String_eq}
use kuksa_val_services.Controller.Lifecycle.{Environment}
use kuksa_val_services.Adjuster.Impl.{Adjuster, subscribe_position}
use kuksa_val_services.Feeder.Datapoint.{create_not_available_value}
use kuksa_val_services.Feeder.Sending.{values_to_feed, add_initial_values}
use kuksa_val_services.Main.{
  Options, main_options, parse_args, parse_vss, env_or, SeatService, run_service, wire,
}

-- VSS is unset or a version that the service knows.
abbrev pub IsKnownVss : Option String → Type 0
IsKnownVss v = (v ≡ none) ⊎ ((v ≡ some "3") ⊎ (v ≡ some "4"))

parse_args_iff :
    (argv : List String) → (parse_args argv ≢ none) ↔ ((2 ≤ length argv) × (length argv ≤ 4))
unfolding parse_args
parse_args_iff [] = ground arith
parse_args_iff (program ∷ []) = ground arith
parse_args_iff (program ∷ can ∷ []) = ground arith
parse_args_iff (program ∷ can ∷ address ∷ []) = ground arith
parse_args_iff (program ∷ can ∷ address ∷ port ∷ []) = ground arith
parse_args_iff (program ∷ can ∷ address ∷ port ∷ more ∷ rest) = ground arith

parse_vss_iff : (v : Option String) → (parse_vss (env_or v "4") ≢ none) ↔ IsKnownVss v
unfolding parse_vss
parse_vss_iff none = ground arith
parse_vss_iff (some v) = ground (arith, String_eq.beq_iff v "3", String_eq.beq_iff v "4")

-- The service gets its options exactly with one to three arguments after the program's name and with
-- VSS unset, "3" or "4".
pub main_options_iff :
    (env : Environment) (argv : List String)
    → (main_options env argv ≢ none)
      ↔ ((2 ≤ length argv) × (length argv ≤ 4) × IsKnownVss (env.getenv "VSS"))
unfolding main_options
main_options_iff env argv = ground (arith, parse_args_iff argv, parse_vss_iff (env.getenv "VSS"))

-- With any options Run builds the service: its feeder and its subscriber work on the same name of
-- the seat's position, the feed callback is set, and as long as no value is stored the feeder's
-- values hold NOT_AVAILABLE for this name.
pub run_service-values_to_feed :
    (a : Adjuster) (feed_cb : ℕ) (o : Options)
    → (s : SeatService) × (run_service a feed_cb o ≡ some s)
      × (s.subscriber.seat_pos_name ≡ s.seat_pos_name)
      × (s.subscriber.adjuster_state.cb ≡ some feed_cb)
      × (lookup s.seat_pos_name (values_to_feed true s.feeder) ≡ some create_not_available_value)
unfolding run_service subscribe_position add_initial_values insert_new lookup
run_service-values_to_feed a feed_cb o = elim (Bool-cases o.vss_4) [
  | inl four ↦ (wire a feed_cb o, rw four refl, refl, refl, rw four refl)
  | inr three ↦ (wire a feed_cb o, rw three refl, refl, refl, rw three refl)
]
