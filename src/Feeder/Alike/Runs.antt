-- ===== src/Feeder/Alike/Runs.antt =====
-- data_broker_feeder.cc: Run, up to the order of iteration.
use kuksa_val_services.Prelude.{Bool, true, false, not, List, [], ◌∷◌, ◌≡◌, refl, ap, arith, String}
use kuksa_val_services.Prelude.Dict.{Dict, lookup, String_eq}
use kuksa_val_services.Prelude.Order.{SameEntries, if_related}
use kuksa_val_services.Feeder.Datapoint.{Datapoint}
use kuksa_val_services.Feeder.State.{Feeder, DatapointMetadata, Call, cleanup, new_feeder}
use kuksa_val_services.Feeder.Sending.{feed_stored_values}
use kuksa_val_services.Feeder.Run.{
  Phase, connecting, feeding, waiting, stopped, Machine, Surroundings, step, dispatch, connect, at,
  feed_round, wait_round, end_round, Event, steps, calls_in, connection, on_event, on_call,
  on_connection, run, nothing_stored,
}
use kuksa_val_services.Feeder.Alike.{
  Alike, AlikeCall, AlikeCalls, Alike-flags, Alike-ids, call-Alike,
}
use kuksa_val_services.Feeder.Alike.Sending.{
  AlikeReplies, register_datapoints-Alike, feed_stored_values-Alike,
}

pub record AlikeMachine (m n : Machine) : Type 0 where
  pub phase : m.phase ≡ n.phase
  pub feeder : Alike m.feeder n.feeder

-- Surroundings of a step that differ in the order of entries at most.
pub record AlikeSurroundings (e d : Surroundings) : Type 0 where
  pub connects : e.connects ≡ d.connects
  pub replies : AlikeReplies e.replies d.replies
  pub update_status : e.update_status ≡ d.update_status
  pub meanwhile : AlikeCalls e.meanwhile d.meanwhile
  pub woken : e.woken ≡ d.woken

pub data AlikeEvents : List Event → List Event → Type 0 where
  no_events : AlikeEvents [] []
  next_steps :
      {e d : Surroundings} {es ds : List Event}
      → AlikeSurroundings e d
      → AlikeEvents es ds
      → AlikeEvents (steps e ∷ es) (steps d ∷ ds)
  next_call :
      {c d : Call} {es ds : List Event}
      → AlikeCall c d
      → AlikeEvents es ds
      → AlikeEvents (calls_in c ∷ es) (calls_in d ∷ ds)
  next_connection :
      {es ds : List Event} (b : Bool)
      → AlikeEvents es ds
      → AlikeEvents (connection b ∷ es) (connection b ∷ ds)

at-Alike : (p : Phase) (f g : Feeder) → Alike f g → AlikeMachine (at p f) (at p g)
at-Alike p f g a = record { phase = refl; feeder = a }

cleanup-Alike : (f g : Feeder) → Alike f g → Alike (cleanup f) (cleanup g)
unfolding cleanup
cleanup-Alike f g a =
    Alike-ids (record f { feeder_ready = false }) (record g { feeder_ready = false }) [] [] [] []
      (Alike-flags f g f.feeder_active g.feeder_active f.connected g.connected false false a
        a.feeder_active a.connected refl)
      (λ k. refl) ((λ k. refl), tt, tt)

-- With another state of the connection and another readiness.
connected-Alike :
    (f g : Feeder) (b c r s : Bool)
    → Alike f g
    → b ≡ c
    → r ≡ s
    → Alike
        (record f { connected = b; feeder_ready = r })
        (record g { connected = c; feeder_ready = s })
connected-Alike f g b c r s a e h =
    Alike-flags f g f.feeder_active g.feeder_active b c r s a a.feeder_active e h

end_round-Alike : (f g : Feeder) → Alike f g → AlikeMachine (end_round f) (end_round g)
unfolding end_round
end_round-Alike f g a =
    if_related AlikeMachine (not f.connected) (not g.connected) _ _ _ _ (ap not a.connected)
      (at-Alike connecting (cleanup f) (cleanup g) (cleanup-Alike f g a))
      (at-Alike (feeding false) f g a)

nothing_stored-entries :
    (m n : Dict String Datapoint) (f g : Feeder)
    → f.stored_values ≡ m
    → g.stored_values ≡ n
    → SameEntries m n
    → nothing_stored f ≡ nothing_stored g
unfolding lookup
nothing_stored-entries [] [] f g p q s = ground arith
nothing_stored-entries ((k, v) ∷ m) ((l, w) ∷ n) f g p q s = ground arith
nothing_stored-entries [] ((l, w) ∷ n) f g p q s =
    absurd (ground (arith, s l, String_eq.beq_iff l l))
nothing_stored-entries ((k, v) ∷ m) [] f g p q s =
    absurd (ground (arith, s k, String_eq.beq_iff k k))

nothing_stored-same : (f g : Feeder) → Alike f g → nothing_stored f ≡ nothing_stored g
nothing_stored-same f g a =
    nothing_stored-entries f.stored_values g.stored_values f g refl refl a.stored_values.0

feed_round-Alike :
    (e d : Surroundings) (b : Bool) (f g : Feeder)
    → AlikeSurroundings e d
    → Alike f g
    → AlikeMachine (feed_round e b f) (feed_round d b g)
unfolding feed_round
feed_round-Alike e d b f g h a =
    let s : Alike (feed_stored_values e.update_status e.meanwhile b f)
        (feed_stored_values d.update_status d.meanwhile b g) =
      rw h.update_status (feed_stored_values-Alike d.update_status b f g h.meanwhile a) in
    if_related AlikeMachine _ _ _ _ _ _
      (ground (arith, s.feeder_active, s.connected, nothing_stored-same _ _ s))
      (at-Alike (waiting false) _ _ s) (end_round-Alike _ _ s)

connect-Alike :
    (e d : Surroundings) (f g : Feeder)
    → AlikeSurroundings e d
    → Alike f g
    → AlikeMachine (connect e f) (connect d g)
unfolding connect
connect-Alike e d f g h a =
    let c =
      connected-Alike f g e.connects d.connects f.feeder_ready g.feeder_ready a h.connects
        a.feeder_ready in
    let (r, ok) = register_datapoints-Alike e.replies d.replies _ _ h.replies c in
    if_related AlikeMachine _ _ _ _ _ _ (ground (arith, a.feeder_active, h.connects))
      (if_related AlikeMachine _ _ _ _ _ _ ok
        (at-Alike (feeding true) _ _ (connected-Alike _ _ _ _ true true r r.connected refl))
        (at-Alike connecting _ _ r))
      (at-Alike (feeding true) _ _
        (connected-Alike f g e.connects d.connects true true a h.connects refl))

dispatch-Alike :
    (e d : Surroundings) (p : Phase) (f g : Feeder)
    → AlikeSurroundings e d
    → Alike f g
    → AlikeMachine (dispatch e p f) (dispatch d p g)
unfolding dispatch wait_round
dispatch-Alike e d connecting f g h a =
    if_related AlikeMachine f.feeder_active g.feeder_active _ _ _ _ a.feeder_active
      (connect-Alike e d f g h a) (at-Alike stopped f g a)
dispatch-Alike e d (feeding b) f g h a =
    if_related AlikeMachine _ _ _ _ _ _ (ground (arith, a.feeder_active, a.connected))
      (feed_round-Alike e d b f g h a)
      (at-Alike connecting (cleanup f) (cleanup g) (cleanup-Alike f g a))
dispatch-Alike e d (waiting b) f g h a =
    if_related AlikeMachine _ _ _ _ _ _ (ground (arith, a.feeder_active, a.connected, h.woken))
      (end_round-Alike f g a) (at-Alike (waiting false) f g a)
dispatch-Alike e d stopped f g h a = at-Alike stopped f g a

step-Alike :
    (e d : Surroundings) (m n : Machine)
    → AlikeSurroundings e d
    → AlikeMachine m n
    → AlikeMachine (step e m) (step d n)
unfolding step
step-Alike e d m n h a = rw a.phase (dispatch-Alike e d n.phase m.feeder n.feeder h a.feeder)

on_call-Alike :
    {c d : Call} (m n : Machine)
    → AlikeCall c d
    → AlikeMachine m n
    → AlikeMachine (on_call c m) (on_call d n)
unfolding on_call
on_call-Alike m n h a = record {
  phase = ground (arith, a.phase, a.feeder.feeder_active);
  feeder = call-Alike m.feeder n.feeder h a.feeder;
}

run-Alike :
    {es ds : List Event} (m n : Machine)
    → AlikeEvents es ds
    → AlikeMachine m n
    → AlikeMachine (run es m) (run ds n)
unfolding run on_event on_connection
run-Alike m n no_events a = a
run-Alike m n (next_steps {e} {d} h hs) a =
    run-Alike (step e m) (step d n) hs (step-Alike e d m n h a)
run-Alike m n (next_call {c} {d} h hs) a =
    run-Alike (on_call c m) (on_call d n) hs (on_call-Alike m n h a)
run-Alike m n (next_connection b hs) a =
    run-Alike (on_connection b m) (on_connection b n) hs (record {
      phase = a.phase;
      feeder =
          connected-Alike m.feeder n.feeder b b m.feeder.feeder_ready n.feeder.feeder_ready a.feeder
            refl a.feeder.feeder_ready;
    })

new_feeder-Alike : (config : List DatapointMetadata) → Alike (new_feeder config) (new_feeder config)
new_feeder-Alike config = record {
  dp_config = refl;
  stored_values = ((λ k. refl), tt, tt);
  id_map = λ k. refl;
  dp_meta = ((λ k. refl), tt, tt);
  feeder_active = refl;
  feeder_ready = refl;
  connected = refl;
  updates = tt;
}

-- The order in which the feeder's unordered maps are iterated does not matter: two runs of a new feeder
-- whose events differ at most in the order of entries are in the same phase with the same flags, hold the
-- same value, id and metadata for every name, and have made the same calls of UpdateDatapoints with the
-- same status, and with the same value for every id wherever no two names had the same id.
pub run_order :
    (config : List DatapointMetadata) (es ds : List Event)
    → AlikeEvents es ds
    → AlikeMachine
        (run es (at connecting (new_feeder config)))
        (run ds (at connecting (new_feeder config)))
run_order config es ds h = run-Alike _ _ h (at-Alike connecting _ _ (new_feeder-Alike config))
