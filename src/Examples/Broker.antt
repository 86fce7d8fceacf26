-- ===== src/Examples/Broker.antt =====
-- The theorems on the feeder, at concrete brokers.
use kuksa_val_services.Prelude.{ℕ, ◌≡◌, refl, true, false, List, [], ◌∷◌, some, arith, String}
use kuksa_val_services.Prelude.Dict.{
  lookup, insert, insert_new, insert_new_all, or_else, String_eq, ℕ_eq,
}
use kuksa_val_services.Grpc.{StatusCode}
use kuksa_val_services.Feeder.Datapoint.{Datapoint, uint32_value, create_not_available_value}
use kuksa_val_services.Feeder.State.{
  Feeder, Update, DatapointMetadata, feeds, calls, new_feeder, status_is_ok, is_unrecoverable,
  handle_error, cleanup,
}
use kuksa_val_services.Feeder.Sending.{
  build_request, feed_to_broker, restore_values, add_initial_values, values_to_feed,
  feed_stored_values,
}
use kuksa_val_services.Feeder.Registration.{
  BrokerReplies, check_datapoints, register_datapoints, get_metadata, all_known, cache_metadata,
  take_ids,
}
use kuksa_val_services.Feeder.Run.{
  connecting, feeding, waiting, stopped, Surroundings, at, Event, steps, calls_in, run, step,
  on_event, dispatch, connect, feed_round, end_round, on_call, on_connection,
}
use kuksa_val_services.Feeder.Merging.{feed_stored_values_safe}
use kuksa_val_services.Feeder.Stopping.{unrecoverable_stops}
use kuksa_val_services.Feeder.Delivery.{feeding_unregistered}
use kuksa_val_services.Feeder.Keeping.{IsKept, run-IsKept-feeds}
use kuksa_val_services.Feeder.Registered.{GivesId}
use kuksa_val_services.Feeder.Requests.{IdsDiffer}
use kuksa_val_services.Feeder.Reconnecting.{reconnected, initial_again}

abbrev pub position_name : String
position_name = "Vehicle.Cabin.Seat.Row1.Pos1.Position"

abbrev pub position_metadata : DatapointMetadata
position_metadata = record {
  name = position_name;
  data_type = 11;
  change_type = 1;
  initial_value = create_not_available_value;
  description = "";
}

abbrev broker : BrokerReplies
broker = record {
  metadata_status = StatusCode.ok;
  metadata_list = record { meta_id = 4; meta_name = position_name; meta_data_type = 11 } ∷ [];
  register_status = StatusCode.ok;
  register_results = [];
}

abbrev pub feeder : Feeder
feeder = new_feeder (position_metadata ∷ [])

-- Registered, with no value to send.
abbrev registered : Feeder
registered = record feeder {
  id_map = (position_name, 4) ∷ [];
  feeder_ready = true;
  connected = true;
}

abbrev answering : StatusCode → Surroundings
answering code = record {
  connects = true;
  replies = broker;
  update_status = code;
  meanwhile = [];
  woken = false;
}

abbrev pub good : Surroundings
good = answering StatusCode.ok

abbrev unreachable : Surroundings
unreachable = record good { connects = false }

abbrev failing : Surroundings
failing = answering StatusCode.internal

abbrev fresh_value : Datapoint
fresh_value = uint32_value 200

abbrev stored : Feeder
stored = record registered { stored_values = (position_name, uint32_value 100) ∷ [] }

feed_stored_values_safe_example :
    let values = values_to_feed false stored in
    let fed = calls (feeds position_name fresh_value ∷ []) (record stored { stored_values = [] }) in
    let g =
      feed_stored_values StatusCode.unavailable
        (feeds position_name fresh_value ∷ [])
        false
        stored in
    (g.updates
      ≡ record {
        ids = stored.id_map;
        datapoints = build_request stored.id_map values [];
        status = StatusCode.unavailable;
      }
        ∷ [])
    × (lookup position_name g.stored_values
        ≡ or_else (lookup position_name fed.stored_values) (lookup position_name values))
unfolding status_is_ok
feed_stored_values_safe_example =
    feed_stored_values_safe StatusCode.unavailable (feeds position_name fresh_value ∷ []) false
      stored position_name

-- The connection is lost, with nothing to send.
abbrev lost : Feeder
lost = record registered { connected = false }

abbrev pub three_steps : List Event
three_steps = steps good ∷ calls_in (feeds position_name fresh_value) ∷ steps good ∷ steps good ∷ []

unrecoverable_stops_example :
    let n = run three_steps (step failing (at (feeding true) registered)) in
    (n.feeder.feeder_active ≡ false) × (n.phase ≡ stopped)
unrecoverable_stops_example =
    unrecoverable_stops failing three_steps (at (feeding true) registered) true refl refl refl
      (unfold is_unrecoverable in refl) (omega arith)

-- Registered, and disconnected by a failed call.
abbrev reconnects : List Event
reconnects = steps good ∷ steps (answering StatusCode.unavailable) ∷ []

reconnects-connecting : (run reconnects (at connecting feeder)).phase ≡ connecting
unfolding run on_event step dispatch connect register_datapoints check_datapoints get_metadata
    all_known cache_metadata insert lookup status_is_ok feed_round end_round cleanup
    feed_stored_values feed_to_broker handle_error restore_values calls take_ids add_initial_values
    build_request insert_new_all insert_new is_unrecoverable
reconnects-connecting = refl

feeding_unregistered_example :
    let n = step good (on_connection true (step unreachable (at connecting feeder))) in
    (n.phase ≡ waiting false)
    × (n.feeder.updates ≡ record { ids = []; datapoints = []; status = StatusCode.ok } ∷ [])
    × (n.feeder.stored_values ≡ [])
feeding_unregistered_example =
    feeding_unregistered (at connecting feeder) unreachable good refl refl refl refl refl
      (unfold status_is_ok in refl)

-- The broker registers the name.
abbrev registering_broker : BrokerReplies
registering_broker = record broker {
  metadata_list = [];
  register_results = (position_name, 9) ∷ [];
}

abbrev registers : Surroundings
registers = record good { replies = registering_broker }

registers-GivesId : GivesId position_name registering_broker
unfolding lookup
registers-GivesId = λ o n. ground (arith, String_eq.beq_iff position_name position_name)

registered_id : IdsDiffer ((position_name, 9) ∷ [])
unfolding lookup
registered_id a b id h k =
    ground (arith, String_eq.beq_iff position_name a, String_eq.beq_iff position_name b)

given_ids-IdsDiffer :
    IdsDiffer
      (register_datapoints registering_broker (reconnected (at (feeding false) lost))).0.id_map
unfolding register_datapoints check_datapoints get_metadata all_known cache_metadata insert lookup
    status_is_ok cleanup
given_ids-IdsDiffer = registered_id

initial_again_example :
    let ids =
      (register_datapoints registering_broker (reconnected (at (feeding false) lost))).0.id_map in
    (u : Update) × ((step good
        (step registers (step good (at (feeding false) lost)))).feeder.updates
      ≡ u ∷ [])
    × (u.ids ≡ ids)
    × (u.status ≡ StatusCode.ok)
    × (id : ℕ) × (lookup position_name ids ≡ some id)
    × (lookup id u.datapoints ≡ some create_not_available_value)
initial_again_example =
    initial_again (at (feeding false) lost) false good registers good position_name
      create_not_available_value refl refl refl refl refl refl (unfold status_is_ok in refl)
      (unfold register_datapoints check_datapoints get_metadata all_known cache_metadata insert
          lookup status_is_ok cleanup in
        refl)
      registers-GivesId given_ids-IdsDiffer

-- A value that the broker refuses, and then accepts, while another name is fed.
abbrev retry : List Event
retry =
    steps (answering StatusCode.unavailable)
    ∷ calls_in (feeds "Vehicle.Cabin.SeatRowCount" (uint32_value 2))
    ∷ steps good
    ∷ steps good
    ∷ []

run-IsKept-feeds_example :
    IsKept position_name fresh_value registered.dp_config
      (run retry (on_call (feeds position_name fresh_value) (at (feeding false) registered))).feeder
run-IsKept-feeds_example =
    run-IsKept-feeds position_name fresh_value retry (at (feeding false) registered) refl tt (
      tt,
      (
        (λ e. ground (arith, String_eq.beq_iff "Vehicle.Cabin.SeatRowCount" position_name, e)),
        (tt, (tt, tt)),
      ),
    )
