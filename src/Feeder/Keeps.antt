-- ===== src/Feeder/Keeps.antt =====
-- What a step of the feeder keeps.
use kuksa_val_services.Prelude.{
  Bool, false, not, List, [], ◌∷◌, ◌∙◌, ◌&&◌, ◌||◌, ◌≡◌, refl, arith, both_branches,
}
use kuksa_val_services.Prelude.Dict.{String_eq, ℕ_eq}
use kuksa_val_services.Grpc.{StatusCode}
use kuksa_val_services.Feeder.State.{
  DatapointMetadata, Feeder, Update, Call, feeds, feeds_all, shuts_down, call, calls, feed_value,
  feed_values, shutdown, handle_error, cleanup,
}
use kuksa_val_services.Feeder.Sending.{
  feed_stored_values, feed_to_broker, restore_values, values_to_feed, build_request,
}
use kuksa_val_services.Feeder.Registration.{
  BrokerReplies, register_datapoints, check_datapoints, get_metadata,
}
use kuksa_val_services.Feeder.Run.{
  step, run, Event, steps, calls_in, connection, on_event, on_call, on_connection, Phase,
  connecting, feeding, waiting, stopped, Machine, Surroundings, dispatch, connect, feed_round,
  wait_round, end_round, at,
}

-- What the machine leaves of the stored values and of the calls made so far.
abbrev pub Same : Feeder → Feeder → Type 0
Same g f =
    (g.stored_values ≡ f.stored_values) × (g.updates ≡ f.updates) × (g.dp_config ≡ f.dp_config)

pub handle_error-Same : (code : StatusCode) (f : Feeder) → Same (handle_error code f) f
unfolding handle_error
handle_error-Same code f = ground arith

register_datapoints-Same : (b : BrokerReplies) (f : Feeder) → Same (register_datapoints b f).0 f
unfolding register_datapoints check_datapoints get_metadata
register_datapoints-Same b f = ground (
  arith,
  handle_error-Same b.metadata_status f,
  handle_error-Same b.register_status (get_metadata b f).0,
)

pub connect-Same : (e : Surroundings) (f : Feeder) → Same (connect e f).feeder f
unfolding connect
connect-Same e f =
    ground (arith, register_datapoints-Same e.replies (record f { connected = e.connects }))

pub feed_round-Same :
    (e : Surroundings) (b : Bool) (f : Feeder)
    → Same (feed_round e b f).feeder (feed_stored_values e.update_status e.meanwhile b f)
unfolding feed_round end_round cleanup
feed_round-Same e b f = ground arith

pub call-config : (c : Call) (f : Feeder) → (call c f).dp_config ≡ f.dp_config
unfolding call feed_value feed_values shutdown
call-config (feeds name v) f = ground arith
call-config (feeds_all values) f = ground arith
call-config shuts_down f = ground arith

pub calls-config : (cs : List Call) (f : Feeder) → (calls cs f).dp_config ≡ f.dp_config
unfolding calls
calls-config [] f = refl
calls-config (c ∷ cs) f = calls-config cs (call c f) ∙ call-config c f

pub feed_stored_values-config :
    (reply : StatusCode) (cs : List Call) (b : Bool) (f : Feeder)
    → (feed_stored_values reply cs b f).dp_config ≡ f.dp_config
unfolding feed_stored_values feed_to_broker restore_values
feed_stored_values-config reply cs b f =
    let fed : Feeder = calls cs (record f { stored_values = [] }) in
    let u : Update = record {
      ids = fed.id_map;
      datapoints = build_request fed.id_map (values_to_feed b f) [];
      status = reply;
    } in
    ground (
      arith,
      calls-config cs (record f { stored_values = [] }),
      handle_error-Same reply (record fed { updates = u ∷ fed.updates }),
    )

-- A property of the stored values and the calls made so far, which sending values keeps, is kept by every
-- step.
module _ (P : Feeder → Type 0) (same : (f g : Feeder) → Same g f → P f → P g) (e : Surroundings)
    (sends : (b : Bool) (f : Feeder)
      → P f
      → P (feed_stored_values e.update_status e.meanwhile b f)) where
  abbrev Q : Machine → Type 0
  Q m = P m.feeder

  end_round-keeps : (f : Feeder) → P f → Q (end_round f)
  unfolding end_round cleanup
  end_round-keeps f k =
      let k' : P (cleanup f) = same f (cleanup f) (unfold cleanup in (refl, refl, refl)) k in
      both_branches Q (not f.connected) (at connecting (cleanup f)) (at (feeding false) f) k' k

  pub dispatch-keeps : (phase : Phase) (f : Feeder) → P f → Q (dispatch e phase f)
  unfolding dispatch wait_round
  dispatch-keeps connecting f k =
      both_branches Q f.feeder_active (connect e f) (at stopped f)
        (same f (connect e f).feeder (connect-Same e f) k) k
  dispatch-keeps (feeding b) f k =
      both_branches Q (f.feeder_active && f.connected) (feed_round e b f)
        (at connecting (cleanup f))
        (same (feed_stored_values e.update_status e.meanwhile b f) (feed_round e b f).feeder
          (feed_round-Same e b f) (sends b f k))
        (same f (cleanup f) (unfold cleanup in (refl, refl, refl)) k)
  dispatch-keeps (waiting b) f k =
      both_branches Q (not f.feeder_active || not f.connected || b || e.woken) (end_round f)
        (at (waiting false) f) (end_round-keeps f k) k
  dispatch-keeps stopped f k = k

-- The configuration stays.
pub step-config :
    (e : Surroundings) (m : Machine) (config : List DatapointMetadata)
    → m.feeder.dp_config ≡ config
    → (step e m).feeder.dp_config ≡ config
unfolding step
step-config e m config h =
    dispatch-keeps (λ (f : Feeder). f.dp_config ≡ config) (λ f g (s, u, d) k. d ∙ k) e
      (λ b f k. feed_stored_values-config e.update_status e.meanwhile b f ∙ k) m.phase m.feeder h

pub run-config :
    (es : List Event) (m : Machine) (config : List DatapointMetadata)
    → m.feeder.dp_config ≡ config
    → (run es m).feeder.dp_config ≡ config
unfolding run on_event on_call on_connection
run-config [] m config h = h
run-config (steps e ∷ es) m config h = run-config es (step e m) config (step-config e m config h)
run-config (calls_in c ∷ es) m config h =
    run-config es (on_call c m) config (call-config c m.feeder ∙ h)
run-config (connection b ∷ es) m config h = run-config es (on_connection b m) config h
