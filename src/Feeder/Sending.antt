-- ===== src/Feeder/Sending.antt =====
-- data_broker_feeder.cc: feedStoredValues, feedToBroker and restoreValues.
use kuksa_val_services.Prelude.{
  ℕ, Bool, true, false, List, [], ◌∷◌, String, Option, none, some, if◌then◌else◌,
}
use kuksa_val_services.Prelude.Dict.{
  Dict, insert, insert_new, insert_new_all, lookup, String_eq, ℕ_eq,
}
use kuksa_val_services.Grpc.{StatusCode}
use kuksa_val_services.Feeder.Datapoint.{Datapoint}
use kuksa_val_services.Feeder.State.{
  Feeder, Update, Call, calls, DatapointMetadata, handle_error, status_is_ok,
}

-- One round of the loop that builds the request.
abbrev pub add_datapoint : Option ℕ → Datapoint → Dict ℕ Datapoint → Dict ℕ Datapoint
add_datapoint none value request = request
add_datapoint (some id) value request = insert id value request

-- Values whose name has no id are left out.
unfoldable pub build_request :
    Dict String ℕ → Dict String Datapoint → Dict ℕ Datapoint → Dict ℕ Datapoint
build_request ids [] request = request
build_request ids ((name, value) ∷ values) request =
    build_request ids values (add_datapoint (lookup name ids) value request)

-- `reply` is the code of the broker's status. Errors of single datapoints in a reply are only logged.
unfoldable pub feed_to_broker : StatusCode → Dict String Datapoint → Feeder → Feeder × Bool
unfolding build_request
feed_to_broker reply values f =
    let update : Update = record {
      ids = f.id_map;
      datapoints = build_request f.id_map values [];
      status = reply;
    } in
    let g = record f { updates = update ∷ f.updates } in
    if status_is_ok reply then (g, true) else (handle_error reply g, false)

-- Values that are stored already are newer, and stay.
unfoldable pub restore_values : Dict String Datapoint → Feeder → Feeder
restore_values values f = record f { stored_values = insert_new_all values f.stored_values }

-- The initial values of datapoints that have no stored value.
unfoldable pub add_initial_values :
    List DatapointMetadata → Dict String Datapoint → Dict String Datapoint
add_initial_values [] values = values
add_initial_values (d ∷ ds) values =
    add_initial_values ds (insert_new d.name d.initial_value values)

abbrev pub values_to_feed : Bool → Feeder → Dict String Datapoint
values_to_feed also_initial f =
    if also_initial then add_initial_values f.dp_config f.stored_values else f.stored_values

-- `meanwhile` are the calls of other threads between the swap and the restore. The swap empties the
-- stored values; what is fed meanwhile is stored as usual.
unfoldable pub feed_stored_values : StatusCode → List Call → Bool → Feeder → Feeder
feed_stored_values reply meanwhile also_initial f =
    let values = values_to_feed also_initial f in
    let (g, sent) =
      feed_to_broker reply values (calls meanwhile (record f { stored_values = [] })) in
    if sent then g else restore_values values g
