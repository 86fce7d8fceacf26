-- ===== src/Feeder/Names.antt =====
-- The feeder stores one value for each name, over its whole run.
use kuksa_val_services.Prelude.{
  Bool, true, false, List, [], ◌∷◌, ◌≡◌, ◌↔◌, some, none, sym, ◌∙◌, String, arith, both_branches,
  if◌then◌else◌, ℕ,
}
use kuksa_val_services.Prelude.Dict.{
  Dict, HasDistinctKeys, insert_new, insert_new_all, insert-HasDistinctKeys,
  insert_all-HasDistinctKeys, insert_new-HasDistinctKeys, insert_new_all-HasDistinctKeys, String_eq,
  ℕ_eq, lookup, or_else,
}
use kuksa_val_services.Grpc.{StatusCode}
use kuksa_val_services.Feeder.Datapoint.{Datapoint}
use kuksa_val_services.Feeder.State.{
  Feeder, Update, DatapointMetadata, Call, feeds, feeds_all, shuts_down, call, calls, new_feeder,
  feed_value, feed_values, shutdown, status_is_ok,
}
use kuksa_val_services.Feeder.Sending.{
  feed_stored_values, feed_to_broker, restore_values, values_to_feed, add_initial_values,
  build_request,
}
use kuksa_val_services.Feeder.Merging.{handle_error-parts, initial, lookup-values_to_feed}
use kuksa_val_services.Feeder.Keeps.{Same, dispatch-keeps, call-config, feed_stored_values-config}
use kuksa_val_services.Feeder.Requests.{IdsDiffer, build_request_exact}
use kuksa_val_services.Feeder.Run.{
  connecting, Machine, Surroundings, step, at, Event, steps, calls_in, connection, on_event,
  on_call, on_connection, run,
}

abbrev pub HasNames : Feeder → Type 0
HasNames f = HasDistinctKeys f.stored_values

call-HasNames : (c : Call) (f : Feeder) → HasNames f → HasNames (call c f)
unfolding call feed_value feed_values shutdown
call-HasNames (feeds name v) f d =
    both_branches HasNames f.feeder_active _ f (insert-HasDistinctKeys name v f.stored_values d) d
call-HasNames (feeds_all values) f d =
    both_branches HasNames f.feeder_active _ f (insert_all-HasDistinctKeys values f.stored_values d)
      d
call-HasNames shuts_down f d = both_branches HasNames f.feeder_active _ f tt d

calls-HasNames : (cs : List Call) (f : Feeder) → HasNames f → HasNames (calls cs f)
unfolding calls
calls-HasNames [] f d = d
calls-HasNames (c ∷ cs) f d = calls-HasNames cs (call c f) (call-HasNames c f d)

add_initial_values-HasDistinctKeys :
    (ds : List DatapointMetadata) (values : Dict String Datapoint)
    → HasDistinctKeys values
    → HasDistinctKeys (add_initial_values ds values)
unfolding add_initial_values
add_initial_values-HasDistinctKeys [] values d = d
add_initial_values-HasDistinctKeys (m ∷ ms) values d =
    add_initial_values-HasDistinctKeys ms (insert_new m.name m.initial_value values)
      (insert_new-HasDistinctKeys m.name m.initial_value values d)

pub values_to_feed-HasDistinctKeys :
    (b : Bool) (f : Feeder) → HasNames f → HasDistinctKeys (values_to_feed b f)
values_to_feed-HasDistinctKeys true f d =
    add_initial_values-HasDistinctKeys f.dp_config f.stored_values d
values_to_feed-HasDistinctKeys false f d = d

-- What is stored after the broker has answered.
feed_stored_values-stored :
    (reply : StatusCode) (cs : List Call) (b : Bool) (f : Feeder)
    → let fed = calls cs (record f { stored_values = [] }) in
      (feed_stored_values reply cs b f).stored_values ≡ (
        if status_is_ok reply
        then fed.stored_values
        else insert_new_all (values_to_feed b f) fed.stored_values)
unfolding feed_stored_values feed_to_broker restore_values
feed_stored_values-stored reply cs b f =
    let fed : Feeder = calls cs (record f { stored_values = [] }) in
    let u : Update = record {
      ids = fed.id_map;
      datapoints = build_request fed.id_map (values_to_feed b f) [];
      status = reply;
    } in
    ground (arith, handle_error-parts reply (record fed { updates = u ∷ fed.updates }))

feed_stored_values-HasNames :
    (reply : StatusCode) (cs : List Call) (b : Bool) (f : Feeder)
    → HasNames (feed_stored_values reply cs b f)
feed_stored_values-HasNames reply cs b f =
    let fed : Feeder = calls cs (record f { stored_values = [] }) in
    let d : HasNames fed = calls-HasNames cs (record f { stored_values = [] }) tt in
    rw (feed_stored_values-stored reply cs b f) (
      both_branches (λ (m : Dict String Datapoint). HasDistinctKeys m) (status_is_ok reply)
        fed.stored_values (insert_new_all (values_to_feed b f) fed.stored_values) d
        (insert_new_all-HasDistinctKeys (values_to_feed b f) fed.stored_values d))

Same-HasNames : (f g : Feeder) → Same g f → HasNames f → HasNames g
Same-HasNames f g (s, u, c) d = rw s d

abbrev OfNames : Machine → Type 0
OfNames m = HasNames m.feeder

run-HasNames : (es : List Event) (m : Machine) → OfNames m → OfNames (run es m)
unfolding run on_event on_call on_connection step
run-HasNames [] m d = d
run-HasNames (steps e ∷ es) m d = run-HasNames es (step e m) (
    dispatch-keeps HasNames Same-HasNames e
      (λ b g d. feed_stored_values-HasNames e.update_status e.meanwhile b g) m.phase m.feeder d)
run-HasNames (calls_in c ∷ es) m d = run-HasNames es (on_call c m) (call-HasNames c m.feeder d)
run-HasNames (connection b ∷ es) m d = run-HasNames es (on_connection b m) d

-- A feeder with this configuration, which stores one value for each name.
abbrev pub IsFor : List DatapointMetadata → Feeder → Type 0
IsFor config f = (f.dp_config ≡ config) × HasNames f

module _ (config : List DatapointMetadata) where
  pub call-IsFor : (c : Call) (f : Feeder) → IsFor config f → IsFor config (call c f)
  call-IsFor c f (d, n) = (call-config c f ∙ d, call-HasNames c f n)

  pub feed_stored_values-IsFor :
      (reply : StatusCode) (cs : List Call) (b : Bool) (f : Feeder)
      → IsFor config f
      → IsFor config (feed_stored_values reply cs b f)
  feed_stored_values-IsFor reply cs b f (d, n) =
      (feed_stored_values-config reply cs b f ∙ d, feed_stored_values-HasNames reply cs b f)

  pub step-IsFor :
      (e : Surroundings) (m : Machine) → IsFor config m.feeder → IsFor config (step e m).feeder
  unfolding step
  step-IsFor e m h =
      dispatch-keeps (λ f. IsFor config f) (λ f g (s, u, c) (d, n). (c ∙ d, rw s n)) e
        (λ b f k. feed_stored_values-IsFor e.update_status e.meanwhile b f k) m.phase m.feeder h

  pub run-IsFor :
      (es : List Event) (m : Machine) → IsFor config m.feeder → IsFor config (run es m).feeder
  unfolding run on_event on_call on_connection
  run-IsFor [] m h = h
  run-IsFor (steps e ∷ es) m h = run-IsFor es (step e m) (step-IsFor e m h)
  run-IsFor (calls_in c ∷ es) m h = run-IsFor es (on_call c m) (call-IsFor c m.feeder h)
  run-IsFor (connection b ∷ es) m h = run-IsFor es (on_connection b m) h

-- What a feeder sends from any state of its run, if no two names have the same id: under an id, exactly
-- the value for the name with this id, which is the stored one, and where there is none and the initial
-- values are asked for, the configured initial value.
pub requests_exact :
    (config : List DatapointMetadata) (es : List Event) (b : Bool) (id : ℕ) (v : Datapoint)
    → IdsDiffer (run es (at connecting (new_feeder config))).feeder.id_map
    → let f = (run es (at connecting (new_feeder config))).feeder in
      (lookup id (build_request f.id_map (values_to_feed b f) []) ≡ some v) ↔ (
        (name : String) × (or_else
            (lookup name f.stored_values)
            (if b then initial f.dp_config name else none)
          ≡ some v)
        × (lookup name f.id_map ≡ some id))
requests_exact config es b id v differ =
    let f : Feeder = (run es (at connecting (new_feeder config))).feeder in
    let d =
      values_to_feed-HasDistinctKeys b f (run-HasNames es (at connecting (new_feeder config)) tt) in
    let (forth, back) = build_request_exact f.id_map (values_to_feed b f) differ d id v in
    (
      λ h. (let (name, p, q) = forth h in (name, sym (lookup-values_to_feed b f name) ∙ p, q)),
      λ (name, p, q). back (name, lookup-values_to_feed b f name ∙ p, q),
    )
