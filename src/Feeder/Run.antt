-- ===== src/Feeder/Run.antt =====
-- data_broker_feeder.cc: Run, as a machine whose steps the calls of other threads interleave.
use kuksa_val_services.Prelude.{Bool, true, false, not, ◌&&◌, ◌||◌, List, [], ◌∷◌, if◌then◌else◌}
use kuksa_val_services.Grpc.{StatusCode}
use kuksa_val_services.Feeder.State.{Feeder, Call, call, cleanup}
use kuksa_val_services.Feeder.Sending.{feed_stored_values}
use kuksa_val_services.Feeder.Registration.{BrokerReplies, register_datapoints}

-- At the head of the outer loop; at the head of the inner loop, with also_feed_initial_values; in
-- the wait for new values, notified or not; returned.
pub data Phase : Type 0 where
  connecting : Phase
  feeding : Bool → Phase
  waiting : Bool → Phase
  stopped : Phase

pub record Machine : Type 0 where
  pub phase : Phase
  pub feeder : Feeder

-- What the surroundings contribute to one step: does WaitForConnected succeed, the replies of the
-- broker, the status of UpdateDatapoints, what other threads call during the update, and does the
-- wait end by a spurious wake-up.
pub record Surroundings : Type 0 where
  pub connects : Bool
  pub replies : BrokerReplies
  pub update_status : StatusCode
  pub meanwhile : List Call
  pub woken : Bool

abbrev pub at : Phase → Feeder → Machine
at phase f = record { phase = phase; feeder = f }

abbrev pub nothing_stored : Feeder → Bool
nothing_stored f = elim f.stored_values [ [] ↦ true | v ∷ vs ↦ false ]

-- From the registration to the head of the inner loop; a failed registration goes on with the outer
-- loop, without the cleanup.
unfoldable pub connect : Surroundings → Feeder → Machine
connect e f =
    let g = record f { connected = e.connects } in
    if g.feeder_active && g.connected
    then (let (h, registered) = register_datapoints e.replies g in
        if registered
        then at (feeding true) (record h { feeder_ready = true })
        else at connecting h)
    else at (feeding true) (record g { feeder_ready = true })

-- The end of the inner loop's body.
unfoldable pub end_round : Feeder → Machine
end_round f = if not f.connected then at connecting (cleanup f) else at (feeding false) f

unfoldable pub feed_round : Surroundings → Bool → Feeder → Machine
feed_round e also_initial f =
    let g = feed_stored_values e.update_status e.meanwhile also_initial f in
    if g.feeder_active && g.connected && nothing_stored g then at (waiting false) g else end_round g

-- One round of the waiting loop.
unfoldable pub wait_round : Surroundings → Bool → Feeder → Machine
wait_round e notified f =
    if not f.feeder_active || not f.connected || notified || e.woken
    then end_round f
    else at (waiting false) f

-- One step from a phase.
unfoldable pub dispatch : Surroundings → Phase → Feeder → Machine
dispatch e connecting f = if f.feeder_active then connect e f else at stopped f
dispatch e (feeding also_initial) f =
    if f.feeder_active && f.connected
    then feed_round e also_initial f
    else at connecting (cleanup f)
dispatch e (waiting notified) f = wait_round e notified f
dispatch e stopped f = at stopped f

unfoldable pub step : Surroundings → Machine → Machine
step e m = dispatch e m.phase m.feeder

-- notify_all, which every call makes that finds the feeder active.
abbrev pub notify : Phase → Phase
notify (waiting notified) = waiting true
notify phase = phase

unfoldable pub on_call : Call → Machine → Machine
on_call c m = at (if m.feeder.feeder_active then notify m.phase else m.phase) (call c m.feeder)

-- Another user of the shared KuksaClient has set its `connected_`.
unfoldable pub on_connection : Bool → Machine → Machine
on_connection connected m = record m { feeder = record (m.feeder) { connected = connected } }

pub data Event : Type 0 where
  steps : Surroundings → Event
  calls_in : Call → Event
  connection : Bool → Event

unfoldable pub on_event : Event → Machine → Machine
on_event (steps e) m = step e m
on_event (calls_in c) m = on_call c m
on_event (connection b) m = on_connection b m

unfoldable pub run : List Event → Machine → Machine
run [] m = m
run (e ∷ es) m = run es (on_event e m)
