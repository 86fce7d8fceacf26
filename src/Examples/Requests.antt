-- ===== src/Examples/Requests.antt =====
-- The theorems on the requests to the broker, at a concrete registration.
use kuksa_val_services.Prelude.{
  List, ℕ, ◌≡◌, ◌↔◌, refl, true, false, [], ◌∷◌, String, some, none, if◌then◌else◌, arith,
}
use kuksa_val_services.Prelude.Dict.{Dict, lookup, insert, or_else, String_eq, ℕ_eq}
use kuksa_val_services.Feeder.Datapoint.{uint32_value, create_not_available_value}
use kuksa_val_services.Feeder.State.{Feeder, status_is_ok}
use kuksa_val_services.Feeder.Sending.{build_request, values_to_feed}
use kuksa_val_services.Feeder.Merging.{initial}
use kuksa_val_services.Feeder.Registration.{
  register_datapoints, check_datapoints, get_metadata, all_known, cache_metadata, take_ids,
}
use kuksa_val_services.Feeder.Run.{connecting, steps, run, at, on_event, step, dispatch, connect}
use kuksa_val_services.Feeder.Requests.{IdsDiffer}
use kuksa_val_services.Feeder.Names.{requests_exact}
use kuksa_val_services.Feeder.Run.{on_call, Event, calls_in}
use kuksa_val_services.Feeder.State.{feeds}
use kuksa_val_services.Feeder.Keeping.{IsSent}
use kuksa_val_services.Feeder.Progress.{IsGood}
use kuksa_val_services.Feeder.Registered.{GivesId, IsNamed, requests-IsNamed}
use kuksa_val_services.Prelude.{All, length, ◌≢◌}
use kuksa_val_services.Feeder.State.{cleanup, calls}
use kuksa_val_services.Prelude.Dict.{insert_new}
use kuksa_val_services.Feeder.Sending.{feed_stored_values, feed_to_broker, add_initial_values}
use kuksa_val_services.Feeder.Run.{
  Surroundings, connection, feed_round, end_round, wait_round, on_connection,
}
use kuksa_val_services.Feeder.Delivers.{from_now, run_delivers}
use kuksa_val_services.Examples.Broker.{position_name, position_metadata, feeder, good}

abbrev connected : Feeder
connected = (run (steps good ∷ []) (at connecting feeder)).feeder

abbrev one_id : Dict String ℕ
one_id = (position_name, 4) ∷ []

one_id-IdsDiffer : IdsDiffer one_id
unfolding lookup
one_id-IdsDiffer = λ a b id p q.
    ground (arith, p, q, String_eq.beq_iff position_name a, String_eq.beq_iff position_name b)

connected-ids : connected.id_map ≡ one_id
unfolding run on_event step dispatch connect register_datapoints check_datapoints get_metadata
    all_known cache_metadata insert lookup status_is_ok take_ids
connected-ids = refl

requests_exact_example :
    (lookup 4 (build_request connected.id_map (values_to_feed true connected) [])
      ≡ some create_not_available_value)
    ↔ ((name : String) × (or_else
            (lookup name connected.stored_values)
            (if true then initial connected.dp_config name else none)
          ≡ some create_not_available_value)
        × (lookup name connected.id_map ≡ some 4))
requests_exact_example =
    requests_exact (position_metadata ∷ []) (steps good ∷ []) true 4 create_not_available_value
      (rw connected-ids one_id-IdsDiffer)

abbrev count_name : String
count_name = "Vehicle.Cabin.SeatRowCount"

pub good-IsGood : IsGood good
good-IsGood = record {
  reached = refl;
  knows = unfold status_is_ok in refl;
  registers = unfold status_is_ok in refl;
  takes = unfold status_is_ok in refl;
}

connected-active : connected.feeder_active ≡ true
unfolding run on_event step dispatch connect register_datapoints check_datapoints get_metadata
    all_known cache_metadata insert lookup status_is_ok take_ids
connected-active = refl

-- Another name is fed in between.
abbrev answers : List Event
answers = steps good ∷ calls_in (feeds count_name (uint32_value 2)) ∷ steps good ∷ steps good ∷ []

run_delivers_example :
    IsSent position_name
      (uint32_value 200)
      (position_metadata ∷ [])
      (run answers (
        on_call
          (feeds position_name (uint32_value 200))
          (from_now (run (steps good ∷ []) (at connecting feeder))))).feeder.updates
run_delivers_example =
    run_delivers (position_metadata ∷ []) (steps good ∷ []) position_name (uint32_value 200) answers
      connected-active
      (
        good-IsGood,
        tt,
        (
          (λ e. ground (arith, String_eq.beq_iff count_name position_name, e)),
          (good-IsGood, tt, (good-IsGood, tt, tt)),
        ),
      )
      (omega arith)

-- The broker does not know the datapoint, and registers it.
abbrev registering : Surroundings
registering = record good {
  replies = record (good.replies) {
    metadata_list = [];
    register_results = (position_name, 9) ∷ [];
  };
}

abbrev losing : List Event
losing =
    steps registering
    ∷ steps registering
    ∷ connection false
    ∷ steps registering
    ∷ steps registering
    ∷ steps registering
    ∷ []

has_id : GivesId position_name registering.replies
unfolding lookup
has_id = λ o n. ground (arith, String_eq.beq_iff position_name position_name)

is_configured : initial (position_metadata ∷ []) position_name ≢ none
is_configured = λ n. ground (arith, String_eq.beq_iff position_name position_name)

-- Two requests have gone out.
two_requests : length (run losing (at connecting feeder)).feeder.updates ≡ 2
unfolding run on_event step dispatch connect register_datapoints check_datapoints get_metadata
    all_known cache_metadata insert lookup status_is_ok feed_round end_round cleanup
    feed_stored_values feed_to_broker calls add_initial_values build_request insert_new
    on_connection wait_round
two_requests = refl

requests-IsNamed_example :
    All (IsNamed position_name) (run losing (at connecting feeder)).feeder.updates
requests-IsNamed_example =
    requests-IsNamed position_name (position_metadata ∷ []) losing is_configured
      (has_id, (has_id, (refl, (has_id, (has_id, (has_id, tt))))))
