-- ===== src/System/History.antt =====
-- The feeder within the running service is the feeder alone: each event of the service is a sequence of
-- the feeder's own events.
use kuksa_val_services.Prelude.{
  ◌≡◌, refl, ap, ◌∙◌, Bool, true, false, inl, inr, Bool-cases, List, [], ◌∷◌, ◌++◌, String,
}
use kuksa_val_services.Controller.Types.{Platform}
use kuksa_val_services.Adjuster.Impl.{Adjuster}
use kuksa_val_services.Feeder.State.{Call, shuts_down}
use kuksa_val_services.Feeder.Run.{
  Machine, Surroundings, Event, steps, calls_in, connection, run, on_event, on_call,
}
use kuksa_val_services.Main.{Threads, shut_down}
use kuksa_val_services.System.{
  SystemEvent, reads, requests, component_requests, responds, finishes, feeder_steps, connects,
  ends, subscriber_starts, adjuster_of, with_adjuster, step_during, is_updating, new_adjuster,
  on_system_event, run_system, on_calls, callback_calls, quiet_step,
}

abbrev pub all_calls : List Call → List Event
all_calls [] = []
all_calls (c ∷ cs) = calls_in c ∷ all_calls cs

-- The feeder's events in a step during which the callback may be called.
abbrev pub step_events : Bool → Surroundings → List Call → List Event
step_events true e cs = steps (record e { meanwhile = cs }) ∷ []
step_events false e cs = all_calls cs ++ steps (record e { meanwhile = [] }) ∷ []

run-append : (es fs : List Event) (m : Machine) → run (es ++ fs) m ≡ run fs (run es m)
unfolding run
run-append [] fs m = refl
run-append (e ∷ es) fs m = run-append es fs (on_event e m)

run-all_calls : (cs : List Call) (m : Machine) → run (all_calls cs) m ≡ on_calls cs m
unfolding run on_event
run-all_calls [] m = refl
run-all_calls (c ∷ cs) m = run-all_calls cs (on_call c m)

module _ (exit_on_error : Bool) (p : Platform) (name : String) where
  abbrev next_adjuster : SystemEvent → Threads Adjuster → Adjuster
  next_adjuster e t = new_adjuster exit_on_error p name e (adjuster_of t)

  -- The calls that the callback makes in an event.
  abbrev pub told_calls : SystemEvent → Threads Adjuster → List Call
  told_calls e t = callback_calls name (next_adjuster e t).fed

  -- What an event of the service is for the feeder.
  abbrev pub feeder_events : SystemEvent → Threads Adjuster → List Event
  feeder_events (finishes code) t = []
  feeder_events (connects b) t = connection b ∷ []
  feeder_events subscriber_starts t = []
  feeder_events ends t = calls_in shuts_down ∷ []
  feeder_events (feeder_steps e rs) t =
      step_events (is_updating t.feeder_thread) e (told_calls (feeder_steps e rs) t)
  feeder_events e t = all_calls (told_calls e t)

  abbrev pub history : List SystemEvent → Threads Adjuster → List Event
  history [] t = []
  history (e ∷ es) t = feeder_events e t ++ history es (on_system_event exit_on_error p name e t)

  run-step_events :
      (e : Surroundings) (a : Adjuster) (t : Threads Adjuster)
      → run
          (step_events (is_updating t.feeder_thread) e (callback_calls name a.fed))
          t.feeder_thread
        ≡ (step_during name e a t).feeder_thread
  unfolding run on_event step_during with_adjuster
  run-step_events e a t =
      let cs : List Call = callback_calls name a.fed in
      elim (Bool-cases (is_updating t.feeder_thread)) [
        | inl u ↦ rw u refl
        | inr u ↦ rw u (
            run-append (all_calls cs) (steps (record e { meanwhile = [] }) ∷ []) t.feeder_thread
            ∙ ap (λ (m : Machine). quiet_step e m) (run-all_calls cs t.feeder_thread))
      ]

  run-adjuster_events :
      (a : Adjuster) (t : Threads Adjuster)
      → run (all_calls (callback_calls name a.fed)) t.feeder_thread
        ≡ (with_adjuster name a t).feeder_thread
  unfolding with_adjuster
  run-adjuster_events a t = run-all_calls (callback_calls name a.fed) t.feeder_thread

  run-feeder_events :
      (e : SystemEvent) (t : Threads Adjuster)
      → run (feeder_events e t) t.feeder_thread
        ≡ (on_system_event exit_on_error p name e t).feeder_thread
  unfolding on_system_event run on_event shut_down
  run-feeder_events (finishes code) t = refl
  run-feeder_events (connects b) t = refl
  run-feeder_events subscriber_starts t = refl
  run-feeder_events ends t = refl
  run-feeder_events (feeder_steps e rs) t =
      run-step_events e (next_adjuster (feeder_steps e rs) t) t
  run-feeder_events (reads rs) t = run-adjuster_events (next_adjuster (reads rs) t) t
  run-feeder_events (requests arrivals seat) t =
      run-adjuster_events (next_adjuster (requests arrivals seat) t) t
  run-feeder_events (component_requests arrivals location component position) t =
      run-adjuster_events
        (next_adjuster (component_requests arrivals location component position) t) t
  run-feeder_events (responds arrivals updates) t =
      run-adjuster_events (next_adjuster (responds arrivals updates) t) t

  -- Every run of the service is, for the feeder, a run of the feeder alone: whatever holds after all runs
  -- of the feeder, holds in the service.
  pub run-history :
      (es : List SystemEvent) (t : Threads Adjuster)
      → run (history es t) t.feeder_thread ≡ (run_system exit_on_error p name es t).feeder_thread
  unfolding run_system run
  run-history [] t = refl
  run-history (e ∷ es) t =
      let u : Threads Adjuster = on_system_event exit_on_error p name e t in
      run-append (feeder_events e t) (history es u) t.feeder_thread
      ∙ ap (λ (m : Machine). run (history es u) m) (run-feeder_events e t)
      ∙ run-history es u
