-- ===== src/Feeder/Merging.antt =====
-- The values of feedStoredValues: stored, initial, and fed meanwhile.
use kuksa_val_services.Prelude.{
  Bool, true, false, List, [], ◌∷◌, ◌≡◌, refl, String, Option, none, some, if◌then◌else◌, arith,
}
use kuksa_val_services.Prelude.Dict.{
  Dict, insert_new, lookup, or_else, lookup-insert_new_all, lookup-insert_new, String_eq, ℕ_eq,
}
use kuksa_val_services.Grpc.{StatusCode}
use kuksa_val_services.Feeder.Datapoint.{Datapoint}
use kuksa_val_services.Feeder.State.{
  Feeder, Update, DatapointMetadata, Call, feeds, feeds_all, shuts_down, call, calls, handle_error,
  status_is_ok,
}
use kuksa_val_services.Feeder.Sending.{
  build_request, feed_to_broker, restore_values, add_initial_values, values_to_feed,
  feed_stored_values,
}

-- The initial value of a name: that of its first entry in the configuration.
abbrev pub initial : List DatapointMetadata → String → Option Datapoint
initial [] name = none
initial (d ∷ ds) name =
    or_else (if String_eq.beq d.name name then some d.initial_value else none) (initial ds name)

lookup-add_initial_values :
    (ds : List DatapointMetadata) (values : Dict String Datapoint) (name : String)
    → lookup name (add_initial_values ds values) ≡ or_else (lookup name values) (initial ds name)
unfolding add_initial_values
lookup-add_initial_values [] values name = ground arith
lookup-add_initial_values (d ∷ ds) values name = ground (
  arith,
  lookup-insert_new d.name name d.initial_value values,
  lookup-add_initial_values ds (insert_new d.name d.initial_value values) name,
)

-- The value that a call of feedStoredValues sends for a name: the stored one; if there is none and
-- the initial values are asked for, the configured initial value; and else none.
pub lookup-values_to_feed :
    (also_initial : Bool) (f : Feeder) (name : String)
    → lookup name (values_to_feed also_initial f)
      ≡ or_else
          (lookup name f.stored_values)
          (if also_initial then initial f.dp_config name else none)
lookup-values_to_feed true f name = lookup-add_initial_values f.dp_config f.stored_values name
lookup-values_to_feed false f name = ground arith

pub call-parts :
    (c : Call) (f : Feeder) → ((call c f).updates ≡ f.updates) × ((call c f).id_map ≡ f.id_map)
unfolding call
call-parts (feeds name value) f = ground arith
call-parts (feeds_all values) f = ground arith
call-parts shuts_down f = ground arith

pub calls-parts :
    (cs : List Call) (f : Feeder)
    → ((calls cs f).updates ≡ f.updates) × ((calls cs f).id_map ≡ f.id_map)
unfolding calls
calls-parts [] f = (refl, refl)
calls-parts (c ∷ cs) f = ground (arith, call-parts c f, calls-parts cs (call c f))

pub handle_error-parts :
    (code : StatusCode) (f : Feeder)
    → ((handle_error code f).updates ≡ f.updates)
      × ((handle_error code f).stored_values ≡ f.stored_values)
unfolding handle_error
handle_error-parts code f = ground arith

-- When the broker accepts the call, one request with the values to feed has gone out, and stored is
-- what other threads have fed meanwhile. When it does not, for every name the value fed meanwhile is
-- stored, and where there is none the value that could not be sent: no value is lost, and the newest
-- stays.
pub feed_stored_values_safe :
    (reply : StatusCode) (meanwhile : List Call) (also_initial : Bool) (f : Feeder) (name : String)
    → let values = values_to_feed also_initial f in
      let fed = calls meanwhile (record f { stored_values = [] }) in
      let g = feed_stored_values reply meanwhile also_initial f in
      (g.updates
        ≡ record { ids = f.id_map; datapoints = build_request f.id_map values []; status = reply }
          ∷ f.updates)
      × (lookup name g.stored_values ≡ (
          if status_is_ok reply
          then lookup name fed.stored_values
          else or_else (lookup name fed.stored_values) (lookup name values)))
unfolding feed_stored_values feed_to_broker restore_values
feed_stored_values_safe reply meanwhile also_initial f name =
    let values : Dict String Datapoint = values_to_feed also_initial f in
    let fed : Feeder = calls meanwhile (record f { stored_values = [] }) in
    let u : Update = record {
      ids = fed.id_map;
      datapoints = build_request fed.id_map values [];
      status = reply;
    } in
    let g : Feeder = record fed { updates = u ∷ fed.updates } in
    ground (
      arith,
      calls-parts meanwhile (record f { stored_values = [] }),
      handle_error-parts reply g,
      lookup-insert_new_all values fed.stored_values name,
    )
