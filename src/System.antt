-- ===== src/System.antt =====
-- seat_service/src/bin/seat_service/main.cc: what happens while the service runs. The gRPC server, the
-- subscriber and the reader thread share the adjuster, whose callback feeds the broker's feeder. A call
-- of the adjuster, with the frames that arrive in it and its calls of the callback, is one event.
pub mod Requests
pub mod Feeding
pub mod Sound
pub mod Synced
pub mod Starting
pub mod Running
pub mod History
pub mod Ending
pub mod Delivering
pub mod Targets
pub mod Types
pub mod Informing
use kuksa_val_services.Prelude.{
  ℕ, ℤ, Bool, true, false, ◌&&◌, List, [], ◌∷◌, ◌++◌, String, if◌then◌else◌,
}
use kuksa_val_services.Grpc.{StatusCode}
use kuksa_val_services.Controller.Types.{Platform}
use kuksa_val_services.Controller.Thread.{ReadResult}
use kuksa_val_services.Adjuster.Impl.{Adjuster, adjuster, on_reads}
use kuksa_val_services.Service.{SeatState, SeatLocation, SeatComponent, move, move_component}
use kuksa_val_services.Feeder.State.{Call, feeds}
use kuksa_val_services.Feeder.Run.{
  Phase, connecting, feeding, at, Machine, Surroundings, step, on_call, on_connection,
}
use kuksa_val_services.Subscriber.{EntryUpdate, Subscriber, on_updates, after_finish, run_start}
use kuksa_val_services.DataFeeder.{position_datapoint}
use kuksa_val_services.Main.{Threads, SeatService, shut_down}

-- The FeedValue calls that the callback makes for the recorded positions, of which the newest is first.
abbrev pub callback_calls : String → List (ℕ × ℤ) → List Call
callback_calls name [] = []
callback_calls name ((cb, position) ∷ older) =
    callback_calls name older ++ feeds name (position_datapoint position) ∷ []

abbrev pub on_calls : List Call → Machine → Machine
on_calls [] m = m
on_calls (c ∷ cs) m = on_calls cs (on_call c m)

abbrev pub adjuster_of : Threads Adjuster → Adjuster
adjuster_of t = t.subscriber_thread.adjuster_state

-- The adjuster after the calls of its callback have been passed on.
abbrev pub put_adjuster : Adjuster → Subscriber Adjuster → Subscriber Adjuster
put_adjuster a s = record s { adjuster_state = record a { fed = [] } }

-- The adjuster after a call, and what the feeder has got from its callback.
unfoldable pub with_adjuster : String → Adjuster → Threads Adjuster → Threads Adjuster
with_adjuster name a t = record {
  feeder_thread = on_calls (callback_calls name a.fed) t.feeder_thread;
  subscriber_thread = put_adjuster a t.subscriber_thread;
}

-- The two threads as Run creates them; that of the subscriber has not run yet.
abbrev pub start_threads : SeatService → Threads Adjuster
start_threads w = record {
  feeder_thread = at connecting w.feeder;
  subscriber_thread = w.subscriber;
}

-- Is the next step of the feeder one that calls UpdateDatapoints?
abbrev is_feeding : Phase → Bool
is_feeding (feeding b) = true
is_feeding _ = false

abbrev pub is_updating : Machine → Bool
is_updating m = is_feeding m.phase && m.feeder.feeder_active && m.feeder.connected

-- A step of the feeder, with nothing fed meanwhile.
abbrev pub quiet_step : Surroundings → Machine → Machine
quiet_step e m = step (record e { meanwhile = [] }) m

-- The reader thread reads frames while the feeder makes a step. Where the step sends values, what is fed
-- comes after they have been taken.
unfoldable pub step_during : String → Surroundings → Adjuster → Threads Adjuster → Threads Adjuster
unfolding with_adjuster
step_during name e a t =
    if is_updating t.feeder_thread
    then record {
      feeder_thread = step (record e { meanwhile = callback_calls name a.fed }) t.feeder_thread;
      subscriber_thread = put_adjuster a t.subscriber_thread;
    }
    else (let u = with_adjuster name a t in
        record u { feeder_thread = quiet_step e u.feeder_thread })

-- The reader thread reads; a request of the service, or a response of the subscription, comes with what is
-- read in its calls; the subscription ends; the feeder makes a step, while the reader thread reads; the
-- shared client changes its state; Run ends.
pub data SystemEvent : Type 0 where
  reads : List ReadResult → SystemEvent
  requests : (ℕ → List ReadResult) → SeatState → SystemEvent
  component_requests : (ℕ → List ReadResult) → SeatLocation → SeatComponent → ℤ → SystemEvent
  responds : (ℕ → List ReadResult) → List EntryUpdate → SystemEvent
  finishes : StatusCode → SystemEvent
  feeder_steps : Surroundings → List ReadResult → SystemEvent
  connects : Bool → SystemEvent
  subscriber_starts : SystemEvent
  ends : SystemEvent

module _ (exit_on_error : Bool) (p : Platform) (name : String) where
  -- The adjuster after an event.
  abbrev pub new_adjuster : SystemEvent → Adjuster → Adjuster
  new_adjuster (reads rs) a = on_reads exit_on_error p rs a
  new_adjuster (requests arrivals seat) a = (move (adjuster exit_on_error p arrivals) a seat).0
  new_adjuster (component_requests arrivals location component position) a =
      (move_component (adjuster exit_on_error p arrivals) a location component position).0
  new_adjuster (responds arrivals updates) a =
      on_updates (adjuster exit_on_error p arrivals) name updates a
  new_adjuster (feeder_steps e rs) a = on_reads exit_on_error p rs a
  new_adjuster _ a = a

  abbrev pub take_event : SystemEvent → Adjuster → Threads Adjuster → Threads Adjuster
  take_event (feeder_steps e rs) a t = step_during name e a t
  take_event (finishes code) a t = record t {
    subscriber_thread = after_finish code t.subscriber_thread;
  }
  take_event (connects connected) a t = record t {
    feeder_thread = on_connection connected t.feeder_thread;
  }
  take_event subscriber_starts a t = record t { subscriber_thread = run_start t.subscriber_thread }
  take_event ends a t = shut_down t
  take_event _ a t = with_adjuster name a t

  unfoldable pub on_system_event : SystemEvent → Threads Adjuster → Threads Adjuster
  unfolding step_during with_adjuster run_start
  on_system_event e t = take_event e (new_adjuster e (adjuster_of t)) t

  unfoldable pub run_system : List SystemEvent → Threads Adjuster → Threads Adjuster
  unfolding on_system_event
  run_system [] t = t
  run_system (e ∷ es) t = run_system es (on_system_event e t)
