-- ===== src/System/Synced.antt =====
-- The position of the seat in the adjuster and in the feeder, while the service runs.
use kuksa_val_services.Prelude.{
  ℤ, ◌≡◌, refl, inl, inr, Bool, List, [], ◌∷◌, String, arith, Bool-cases,
}
use kuksa_val_services.Grpc.{StatusCode}
use kuksa_val_services.Controller.Types.{Platform}
use kuksa_val_services.Controller.Invariant.{IsValid}
use kuksa_val_services.Adjuster.Impl.{Adjuster, callback_position}
use kuksa_val_services.Adjuster.Telling.{IsTelling}
use kuksa_val_services.Feeder.State.{DatapointMetadata, shuts_down}
use kuksa_val_services.Feeder.Names.{call-IsFor}
use kuksa_val_services.Feeder.Run.{Machine, Surroundings, step, on_call, on_connection}
use kuksa_val_services.Feeder.Stopping.{on_call-shuts_down}
use kuksa_val_services.Subscriber.{Subscriber, after_finish, shutdown, run_start}
use kuksa_val_services.Main.{Threads, shut_down}
use kuksa_val_services.System.{
  SystemEvent, reads, requests, component_requests, responds, finishes, feeder_steps, connects,
  ends, subscriber_starts, adjuster_of, with_adjuster, put_adjuster, step_during, is_updating,
  new_adjuster, take_event, on_system_event, run_system, on_calls, callback_calls, quiet_step,
}
use kuksa_val_services.System.Sound.{IsSound, new_adjuster-IsSound}
use kuksa_val_services.System.Feeding.{IsTold, on_calls-IsTold, quiet_step-IsTold, update-IsTold}

-- What the callback is told for the motor's position.
abbrev pub told_position : Adjuster → ℤ
told_position a = callback_position a.seat.ctx.motor1_pos

module _ (exit_on_error : Bool) (p : Platform) (name : String) (config : List DatapointMetadata)
    (unfed : ℤ) where
  -- The adjuster tells its callback each position, its context is valid, every call of the callback has
  -- been passed on, and the feeder has got the motor's position.
  pub record IsSynced (t : Threads Adjuster) : Type 0 where
    pub telling : IsTelling exit_on_error (told_position (adjuster_of t)) (adjuster_of t)
    pub valid : IsValid (adjuster_of t).seat.ctx
    pub passed_on : (adjuster_of t).fed ≡ []
    pub told : IsTold name config unfed (told_position (adjuster_of t)) t.feeder_thread

  put_adjuster-IsTelling :
      (first : ℤ) (a : Adjuster)
      → IsTelling exit_on_error first a
      → IsTelling exit_on_error (told_position a) (record a { fed = [] })
  put_adjuster-IsTelling first a i = record {
    quiet = i.quiet;
    runs = i.runs;
    magic = i.magic;
    listener = i.listener;
    addressed = i.addressed;
    subscriber = i.subscriber;
    told = refl;
  }

  put_adjuster-IsSynced :
      (first : ℤ) (a : Adjuster) (t : Threads Adjuster) (m : Machine)
      → IsSound exit_on_error p first a
      → IsTold name config unfed (told_position a) m
      → IsSynced
          (record { feeder_thread = m; subscriber_thread = put_adjuster a t.subscriber_thread })
  put_adjuster-IsSynced first a t m (i, v) h = record {
    telling = put_adjuster-IsTelling first a i;
    valid = v;
    passed_on = refl;
    told = h;
  }

  with_adjuster-IsSynced :
      (first : ℤ) (a : Adjuster) (t : Threads Adjuster)
      → IsSound exit_on_error p first a
      → IsTold name config unfed first t.feeder_thread
      → IsSynced (with_adjuster name a t)
  unfolding with_adjuster
  with_adjuster-IsSynced first a t (i, v) h =
      put_adjuster-IsSynced first a t _ (i, v)
        (on_calls-IsTold name config unfed a.fed first (told_position a) t.feeder_thread i.told h)

  step_during-IsSynced :
      (first : ℤ) (e : Surroundings) (a : Adjuster) (t : Threads Adjuster)
      → IsSound exit_on_error p first a
      → IsTold name config unfed first t.feeder_thread
      → IsSynced (step_during name e a t)
  unfolding step_during with_adjuster
  step_during-IsSynced first e a t (i, v) h =
      let m : Machine = t.feeder_thread in
      let n : Machine = on_calls (callback_calls name a.fed) m in
      elim (Bool-cases (is_updating m)) [
        | inl u ↦ rw u (
            put_adjuster-IsSynced first a t
              (step (record e { meanwhile = callback_calls name a.fed }) m) (i, v)
              (update-IsTold name config unfed e a.fed first (told_position a) m i.told u h))
        | inr u ↦ rw u (
            put_adjuster-IsSynced first a t (quiet_step e n) (i, v)
              (quiet_step-IsTold name config unfed e (told_position a) n
                (on_calls-IsTold name config unfed a.fed first (told_position a) m i.told h)))
      ]

  pub same_adjuster-IsSynced :
      (t u : Threads Adjuster)
      → adjuster_of u ≡ adjuster_of t
      → IsTold name config unfed (told_position (adjuster_of t)) u.feeder_thread
      → IsSynced t
      → IsSynced u
  same_adjuster-IsSynced t u e h i = record {
    telling = rw e i.telling;
    valid = rw e i.valid;
    passed_on = rw e i.passed_on;
    told = rw e h;
  }

  after_finish-adjuster :
      (code : StatusCode) (s : Subscriber Adjuster)
      → (after_finish code s).adjuster_state ≡ s.adjuster_state
  unfolding after_finish
  after_finish-adjuster code s = ground arith

  adjuster_event-IsSynced :
      (e : SystemEvent) (t : Threads Adjuster)
      → IsSynced t
      → IsSynced (with_adjuster name (new_adjuster exit_on_error p name e (adjuster_of t)) t)
  adjuster_event-IsSynced e t i =
      with_adjuster-IsSynced (told_position (adjuster_of t))
        (new_adjuster exit_on_error p name e (adjuster_of t)) t
        (new_adjuster-IsSound exit_on_error p name _ e (adjuster_of t) (i.telling, i.valid)) i.told

  take_event-IsSynced :
      (e : SystemEvent) (t : Threads Adjuster)
      → IsSynced t
      → IsSynced (
          take_event exit_on_error p name e (new_adjuster exit_on_error p name e (adjuster_of t)) t)
  take_event-IsSynced (finishes code) t i =
      same_adjuster-IsSynced t (take_event exit_on_error p name (finishes code) (adjuster_of t) t)
        (after_finish-adjuster code t.subscriber_thread) i.told i
  take_event-IsSynced (connects b) t i =
      same_adjuster-IsSynced t (take_event exit_on_error p name (connects b) (adjuster_of t) t) refl
        (unfold on_connection in i.told) i
  take_event-IsSynced subscriber_starts t i =
      same_adjuster-IsSynced t (take_event exit_on_error p name subscriber_starts (adjuster_of t) t)
        (unfold run_start in refl) i.told i
  take_event-IsSynced ends t i =
      same_adjuster-IsSynced t (shut_down t) (unfold shut_down shutdown in refl)
        (
          unfold shut_down on_call in call-IsFor config shuts_down t.feeder_thread.feeder i.told.0,
          λ a. absurd (unfold shut_down in ground (arith, on_call-shuts_down t.feeder_thread)),
        )
        i
  take_event-IsSynced (feeder_steps e rs) t i =
      step_during-IsSynced (told_position (adjuster_of t)) e _ t
        (new_adjuster-IsSound exit_on_error p name _ (feeder_steps e rs) (adjuster_of t)
          (i.telling, i.valid))
        i.told
  take_event-IsSynced (reads rs) t i = adjuster_event-IsSynced (reads rs) t i
  take_event-IsSynced (requests arrivals seat) t i =
      adjuster_event-IsSynced (requests arrivals seat) t i
  take_event-IsSynced (component_requests arrivals location component position) t i =
      adjuster_event-IsSynced (component_requests arrivals location component position) t i
  take_event-IsSynced (responds arrivals updates) t i =
      adjuster_event-IsSynced (responds arrivals updates) t i

  pub run_system-IsSynced :
      (es : List SystemEvent) (t : Threads Adjuster)
      → IsSynced t
      → IsSynced (run_system exit_on_error p name es t)
  unfolding run_system on_system_event
  run_system-IsSynced [] t i = i
  run_system-IsSynced (e ∷ es) t i =
      run_system-IsSynced es (on_system_event exit_on_error p name e t) (take_event-IsSynced e t i)
