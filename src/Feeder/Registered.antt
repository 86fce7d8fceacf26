-- ===== src/Feeder/Registered.antt =====
-- data_broker_feeder.cc: the ids with which the feeder calls UpdateDatapoints.
use kuksa_val_services.Prelude.{
  Bool, true, false, List, [], ◌∷◌, ◌≡◌, ◌≢◌, ◌∙◌, refl, String, none, arith, All, Bool-cases, inl,
  inr, not, each_branch, both_branches, ◌&&◌,
}
use kuksa_val_services.Prelude.Dict.{lookup, String_eq}
use kuksa_val_services.Grpc.{StatusCode}
use kuksa_val_services.Feeder.State.{
  Feeder, Update, Call, feeds, feeds_all, shuts_down, DatapointMetadata, call, calls, new_feeder,
  status_is_ok, cleanup, feed_value, feed_values, shutdown,
}
use kuksa_val_services.Feeder.Sending.{
  feed_stored_values, feed_to_broker, restore_values, values_to_feed, build_request,
}
use kuksa_val_services.Feeder.Registration.{
  BrokerReplies, register_datapoints, check_datapoints, get_metadata,
}
use kuksa_val_services.Feeder.Merging.{initial, feed_stored_values_safe, call-parts, calls-parts}
use kuksa_val_services.Feeder.Keeps.{
  call-config, connect-Same, feed_round-Same, handle_error-Same, feed_stored_values-config,
}
use kuksa_val_services.Feeder.Delivery.{handle_error-ids, is_outside}
use kuksa_val_services.Feeder.Ids.{HasId, check_datapoints-register}
use kuksa_val_services.Feeder.Run.{
  Phase, connecting, feeding, waiting, stopped, Machine, Surroundings, step, dispatch, connect,
  feed_round, wait_round, end_round, at, Event, steps, calls_in, connection, on_event, on_call,
  on_connection, run, notify,
}

feed_stored_values-ids :
    (reply : StatusCode) (cs : List Call) (b : Bool) (f : Feeder)
    → (feed_stored_values reply cs b f).id_map ≡ f.id_map
unfolding feed_stored_values feed_to_broker restore_values
feed_stored_values-ids reply cs b f =
    let fed : Feeder = calls cs (record f { stored_values = [] }) in
    let u : Update = record {
      ids = fed.id_map;
      datapoints = build_request fed.id_map (values_to_feed b f) [];
      status = reply;
    } in
    ground (
      arith,
      calls-parts cs (record f { stored_values = [] }),
      handle_error-ids reply (record fed { updates = u ∷ fed.updates }),
    )

check_datapoints-config :
    (b : BrokerReplies) (f : Feeder) → (check_datapoints b f).0.dp_config ≡ f.dp_config
unfolding check_datapoints get_metadata
check_datapoints-config b f = ground (arith, handle_error-Same b.metadata_status f)

feed_round-ids :
    (e : Surroundings) (b : Bool) (f : Feeder)
    → is_outside (feed_round e b f).phase ≡ false
    → (feed_round e b f).feeder.id_map ≡ f.id_map
unfolding feed_round end_round cleanup
feed_round-ids e b f o = ground (arith, feed_stored_values-ids e.update_status e.meanwhile b f)

connect-parts :
    (e : Surroundings) (f : Feeder)
    → ((connect e f).feeder.dp_config ≡ f.dp_config) × ((connect e f).feeder.updates ≡ f.updates)
connect-parts e f = let (s, u, d) = connect-Same e f in (d, u)

outside-notify : (phase : Phase) → is_outside (notify phase) ≡ is_outside phase
outside-notify connecting = refl
outside-notify (feeding b) = refl
outside-notify (waiting b) = refl
outside-notify stopped = refl

call-connected : (c : Call) (f : Feeder) → (call c f).connected ≡ f.connected
unfolding call feed_value feed_values shutdown
call-connected (feeds name v) f = ground arith
call-connected (feeds_all values) f = ground arith
call-connected shuts_down f = ground arith

module _ (name : String) where
  abbrev pub Knows : Feeder → Type 0
  Knows f = lookup name f.id_map ≢ none

  -- A call of UpdateDatapoints that has an id for the name.
  abbrev pub IsNamed : Update → Type 0
  IsNamed u = lookup name u.ids ≢ none

  -- An OK for RegisterDatapoints comes with an id for the name.
  abbrev pub GivesId : BrokerReplies → Type 0
  GivesId b = status_is_ok b.register_status ≡ true → lookup name b.register_results ≢ none

  -- Events in which the broker gives ids, and no other user of the client connects it.
  abbrev pub OnlyConnectedHere : List Event → Type 0
  OnlyConnectedHere [] = Unit
  OnlyConnectedHere (steps e ∷ es) = GivesId e.replies × OnlyConnectedHere es
  OnlyConnectedHere (calls_in c ∷ es) = OnlyConnectedHere es
  OnlyConnectedHere (connection b ∷ es) = (b ≡ false) × OnlyConnectedHere es

module _ (name : String) (config : List DatapointMetadata)
    (configured : initial config name ≢ none) where
  -- Within the inner loop, a connected feeder has an id for the name, and so had every call.
  abbrev pub HasNamed : Machine → Type 0
  HasNamed m =
      (is_outside m.phase ≡ false → m.feeder.connected ≡ true → Knows name m.feeder)
      × (m.feeder.dp_config ≡ config)
      × All (IsNamed name) m.feeder.updates

  All-HasId :
      (f : Feeder) (ds : List DatapointMetadata)
      → All (HasId f) ds
      → initial ds name ≢ none
      → Knows name f
  All-HasId f [] h i = absurd (i refl)
  All-HasId f (d ∷ ds) (h, hs) i = ground (arith, String_eq.beq_iff d.name name, All-HasId f ds hs)

  unknown_name :
      (b : BrokerReplies) (f : Feeder)
      → GivesId name b
      → (check_datapoints b f).1 ≡ false
      → (register_datapoints b f).1 ≡ true
      → Knows name (register_datapoints b f).0
  unfolding register_datapoints
  unknown_name b f g u r = ground (arith, g)

  pub register_datapoints-Knows :
      (b : BrokerReplies) (f : Feeder)
      → f.dp_config ≡ config
      → GivesId name b
      → (register_datapoints b f).1 ≡ true
      → Knows name (register_datapoints b f).0
  register_datapoints-Knows b f c g r = elim (Bool-cases (check_datapoints b f).1) [
    | inl known ↦
        let (_, _, ids) = check_datapoints-register b f known in
        All-HasId (register_datapoints b f).0 (check_datapoints b f).0.dp_config ids
          (rw (check_datapoints-config b f ∙ c) configured)
    | inr unknown ↦ unknown_name b f g unknown r
  ]

  connect-inside :
      (e : Surroundings) (f : Feeder)
      → f.feeder_active ≡ true
      → f.dp_config ≡ config
      → GivesId name e.replies
      → is_outside (connect e f).phase ≡ false
      → (connect e f).feeder.connected ≡ true
      → Knows name (connect e f).feeder
  unfolding connect
  connect-inside e f a c g o k =
      ground (arith, register_datapoints-Knows e.replies (record f { connected = e.connects }) c g)

  feed_round-HasNamed :
      (e : Surroundings) (b : Bool) (f : Feeder)
      → Knows name f
      → f.dp_config ≡ config
      → All (IsNamed name) f.updates
      → HasNamed (feed_round e b f)
  feed_round-HasNamed e b f k c us =
      let (s, u, d) = feed_round-Same e b f in
      let sent = (feed_stored_values_safe e.update_status e.meanwhile b f name).0 in
      (
        (λ o _. rw (feed_round-ids e b f o) k),
        d ∙ feed_stored_values-config e.update_status e.meanwhile b f ∙ c,
        rw (u ∙ sent) (k, us),
      )

  outside-HasNamed :
      (phase : Phase) (f : Feeder)
      → is_outside phase ≡ true
      → f.dp_config ≡ config
      → All (IsNamed name) f.updates
      → HasNamed (at phase f)
  outside-HasNamed phase f o c us = ((λ i. absurd (ground arith)), c, us)

  pub dispatch-HasNamed :
      (e : Surroundings) (phase : Phase) (f : Feeder)
      → GivesId name e.replies
      → HasNamed (at phase f)
      → HasNamed (dispatch e phase f)
  unfolding dispatch wait_round end_round cleanup
  dispatch-HasNamed e connecting f g (k, c, us) =
      each_branch HasNamed f.feeder_active (connect e f) (at stopped f)
        (λ a. (let (d, u) = connect-parts e f in (connect-inside e f a c g, d ∙ c, rw u us)))
        (λ a. outside-HasNamed stopped f refl c us)
  dispatch-HasNamed e (feeding b) f g (k, c, us) =
      each_branch HasNamed (f.feeder_active && f.connected) (feed_round e b f)
        (at connecting (cleanup f)) (λ a. feed_round-HasNamed e b f (k refl (ground arith)) c us)
        (λ a. outside-HasNamed connecting (cleanup f) refl c us)
  dispatch-HasNamed e (waiting b) f g (k, c, us) =
      both_branches HasNamed _ (end_round f) (at (waiting false) f)
        (both_branches HasNamed (not f.connected) (at connecting (cleanup f)) (at (feeding false) f)
          (outside-HasNamed connecting (cleanup f) refl c us) (k, c, us))
        (k, c, us)
  dispatch-HasNamed e stopped f g h = h

  pub on_call-HasNamed : (c : Call) (m : Machine) → HasNamed m → HasNamed (on_call c m)
  unfolding on_call
  on_call-HasNamed c m (k, d, us) =
      let (u, i) = call-parts c m.feeder in
      (
        (λ o t. rw i (
            k (ground (arith, outside-notify m.phase))
              (ground (arith, call-connected c m.feeder)))),
        call-config c m.feeder ∙ d,
        rw u us,
      )

  run-HasNamed :
      (es : List Event) (m : Machine) → OnlyConnectedHere name es → HasNamed m → HasNamed (run es m)
  unfolding run on_event step on_connection
  run-HasNamed [] m o h = h
  run-HasNamed (steps e ∷ es) m (g, o) h =
      run-HasNamed es (step e m) o (dispatch-HasNamed e m.phase m.feeder g h)
  run-HasNamed (calls_in c ∷ es) m o h = run-HasNamed es (on_call c m) o (on_call-HasNamed c m h)
  run-HasNamed (connection b ∷ es) m (n, o) (k, c, us) =
      run-HasNamed es (on_connection b m) o ((λ i t. absurd (ground arith)), c, us)

-- As long as no other user of the client connects it, and each RegisterDatapoints that the broker answers
-- with OK gives a configured name an id, every call of UpdateDatapoints since the start of a new feeder was
-- made with an id for this name, whatever else the broker answers, other threads call, and whenever the
-- connection is lost: no value of the name is left out of a request as unknown.
pub requests-IsNamed :
    (name : String) (config : List DatapointMetadata) (es : List Event)
    → initial config name ≢ none
    → OnlyConnectedHere name es
    → All (IsNamed name) (run es (at connecting (new_feeder config))).feeder.updates
requests-IsNamed name config es i o =
    (run-HasNamed name config i es (at connecting (new_feeder config)) o
      ((λ n. absurd (ground arith)), refl, tt)).2
