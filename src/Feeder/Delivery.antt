-- ===== src/Feeder/Delivery.antt =====
-- The feeder's ids over its run, values that are fed while it waits, and a client that another user
-- connects.
use kuksa_val_services.Prelude.{
  ℕ, Bool, true, false, List, [], ◌∷◌, ◌≡◌, ◌∙◌, refl, String, some, arith,
}
use kuksa_val_services.Prelude.Dict.{Dict, insert, lookup, lookup-insert, String_eq, ℕ_eq}
use kuksa_val_services.Grpc.{StatusCode}
use kuksa_val_services.Feeder.Datapoint.{Datapoint}
use kuksa_val_services.Feeder.State.{
  Feeder, Call, DatapointMetadata, feeds, call, calls, handle_error, cleanup, new_feeder,
  status_is_ok, feed_value,
}
use kuksa_val_services.Feeder.Sending.{
  feed_stored_values, feed_to_broker, values_to_feed, build_request,
}
use kuksa_val_services.Feeder.Registration.{
  BrokerReplies, register_datapoints, check_datapoints, get_metadata,
}
use kuksa_val_services.Feeder.Merging.{feed_stored_values_safe, call-parts}
use kuksa_val_services.Feeder.Run.{
  Phase, connecting, feeding, waiting, stopped, Machine, Surroundings, step, dispatch, connect,
  feed_round, wait_round, end_round, at, Event, steps, calls_in, connection, on_event, on_call,
  on_connection, run,
}

-- The phases outside the inner loop.
abbrev pub is_outside : Phase → Bool
is_outside connecting = true
is_outside stopped = true
is_outside _ = false

abbrev IdsAreFresh : Machine → Type 0
IdsAreFresh m = is_outside m.phase ≡ true → m.feeder.id_map ≡ []

pub handle_error-ids : (code : StatusCode) (f : Feeder) → (handle_error code f).id_map ≡ f.id_map
unfolding handle_error
handle_error-ids code f = ground arith

-- A registration that fails leaves the ids alone.
register_datapoints-ids :
    (b : BrokerReplies) (f : Feeder)
    → (register_datapoints b f).1 ≡ false
    → (register_datapoints b f).0.id_map ≡ f.id_map
unfolding register_datapoints check_datapoints get_metadata
register_datapoints-ids b f h = ground (
  arith,
  handle_error-ids b.metadata_status f,
  handle_error-ids b.register_status (get_metadata b f).0,
)

connect-fresh : (e : Surroundings) (f : Feeder) → f.id_map ≡ [] → IdsAreFresh (connect e f)
unfolding connect
connect-fresh e f h =
    ground (arith, register_datapoints-ids e.replies (record f { connected = e.connects }))

dispatch-fresh :
    (e : Surroundings) (phase : Phase) (f : Feeder)
    → (is_outside phase ≡ true → f.id_map ≡ [])
    → IdsAreFresh (dispatch e phase f)
unfolding dispatch feed_round wait_round end_round cleanup
dispatch-fresh e connecting f h = ground (arith, h refl, connect-fresh e f (h refl))
dispatch-fresh e (feeding b) f h = ground arith
dispatch-fresh e (waiting b) f h = ground arith
dispatch-fresh e stopped f h = h

on_event-fresh : (e : Event) (m : Machine) → IdsAreFresh m → IdsAreFresh (on_event e m)
unfolding on_event step on_call on_connection
on_event-fresh (steps e) m h = dispatch-fresh e m.phase m.feeder h
on_event-fresh (calls_in c) m h = λ o. (call-parts c m.feeder).1 ∙ h (ground arith)
on_event-fresh (connection b) m h = h

run-fresh : (es : List Event) (m : Machine) → IdsAreFresh m → IdsAreFresh (run es m)
unfolding run
run-fresh [] m h = h
run-fresh (e ∷ es) m h = run-fresh es (on_event e m) (on_event-fresh e m h)

-- From a new feeder on, after any steps and calls, the feeder holds no ids of datapoints whenever
-- it is about to connect or has returned.
pub run-id_map :
    (config : List DatapointMetadata) (es : List Event)
    → is_outside (run es (at connecting (new_feeder config))).phase ≡ true
    → (run es (at connecting (new_feeder config))).feeder.id_map ≡ []
run-id_map config es = run-fresh es (at connecting (new_feeder config)) (λ h. refl)

feed_round-updates :
    (e : Surroundings) (b : Bool) (f : Feeder)
    → (feed_round e b f).feeder.updates
      ≡ (feed_stored_values e.update_status e.meanwhile b f).updates
unfolding feed_round end_round cleanup
feed_round-updates e b f = ground arith

-- A value fed in the wait brings the thread to the head of the inner loop, stored.
wake :
    (m : Machine) (b : Bool) (name : String) (value : Datapoint) (e : Surroundings)
    → m.phase ≡ waiting b
    → m.feeder.feeder_active ≡ true
    → m.feeder.connected ≡ true
    → step e (on_call (feeds name value) m)
      ≡ at
          (feeding false)
          (record (m.feeder) { stored_values = insert name value m.feeder.stored_values })
unfolding step dispatch on_call call feed_value wait_round end_round
wake m b name value e p a c = ground arith

-- A value that is fed while an active and connected feeder waits is sent by the second next step
-- of its thread: that step makes one call, whose values hold the fed one under its name.
pub fed_while_waiting :
    (m : Machine) (b : Bool) (name : String) (value : Datapoint) (e q : Surroundings)
    → m.phase ≡ waiting b
    → m.feeder.feeder_active ≡ true
    → m.feeder.connected ≡ true
    → let values = insert name value m.feeder.stored_values in
      ((step q (step e (on_call (feeds name value) m))).feeder.updates
        ≡ record {
          ids = m.feeder.id_map;
          datapoints = build_request m.feeder.id_map values [];
          status = q.update_status;
        }
          ∷ m.feeder.updates)
      × (lookup name values ≡ some value)
unfolding step dispatch
fed_while_waiting m b name value e q p a c =
    let f : Feeder = record (m.feeder) {
      stored_values = insert name value m.feeder.stored_values;
    } in
    (
      ground (
        arith,
        wake m b name value e p a c,
        feed_round-updates q false f,
        feed_stored_values_safe q.update_status q.meanwhile false f name,
      ),
      ground (
        arith,
        lookup-insert name name value m.feeder.stored_values,
        String_eq.beq_iff name name,
      ),
    )

build_request_unknown :
    (values : Dict String Datapoint) (request : Dict ℕ Datapoint)
    → build_request [] values request ≡ request
unfolding build_request lookup
build_request_unknown [] request = refl
build_request_unknown ((name, v) ∷ values) request = build_request_unknown values request

feed_unregistered :
    (reply : StatusCode) (cs : List Call) (b : Bool) (f : Feeder)
    → f.id_map ≡ []
    → cs ≡ []
    → status_is_ok reply ≡ true
    → feed_stored_values reply cs b f ≡ record f {
      stored_values = [];
      updates = record { ids = []; datapoints = []; status = reply } ∷ f.updates;
    }
unfolding feed_stored_values feed_to_broker calls
feed_unregistered reply cs b f i c o = ground (arith, build_request_unknown (values_to_feed b f) [])

-- A failed connection leads to the head of the inner loop as well.
connect_failed :
    (m : Machine) (e : Surroundings)
    → m.phase ≡ connecting
    → m.feeder.feeder_active ≡ true
    → e.connects ≡ false
    → step e m ≡ at (feeding true) (record (m.feeder) { connected = false; feeder_ready = true })
unfolding step dispatch connect
connect_failed m e p a c = ground arith

-- When WaitForConnected fails for the feeder and another user of the shared client then connects it, the
-- feeder enters the inner loop without a registration: its first call goes out empty, whatever is stored
-- and configured, and with an OK for it all these values are gone.
pub feeding_unregistered :
    (m : Machine) (e q : Surroundings)
    → m.phase ≡ connecting
    → m.feeder.feeder_active ≡ true
    → m.feeder.id_map ≡ []
    → e.connects ≡ false
    → q.meanwhile ≡ []
    → status_is_ok q.update_status ≡ true
    → let n = step q (on_connection true (step e m)) in
      (n.phase ≡ waiting false)
      × (n.feeder.updates
          ≡ record { ids = []; datapoints = []; status = q.update_status } ∷ m.feeder.updates)
      × (n.feeder.stored_values ≡ [])
unfolding step dispatch feed_round on_connection
feeding_unregistered m e q p a i c w o =
    let f : Feeder = record (m.feeder) { connected = true; feeder_ready = true } in
    rw (connect_failed m e p a c)
      (ground (arith, feed_unregistered q.update_status q.meanwhile true f i w o))
