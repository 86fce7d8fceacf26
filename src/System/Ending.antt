-- ===== src/System/Ending.antt =====
-- How the threads of the running service end.
use kuksa_val_services.Prelude.{
  All, ℕ, ◌+◌, ◌≤◌, ◌≡◌, refl, sym, ap, ◌∙◌, Bool, true, false, List, [], ◌∷◌, ◌++◌, String, arith,
}
use kuksa_val_services.Controller.Types.{Platform}
use kuksa_val_services.Adjuster.Impl.{Adjuster}
use kuksa_val_services.Feeder.State.{Call}
use kuksa_val_services.Feeder.Run.{
  Machine, Surroundings, Event, steps, calls_in, connection, stopped,
}
use kuksa_val_services.Feeder.Stopping.{own_steps, shutdown_stops}
use kuksa_val_services.Subscriber.{after_finish, shutdown}
use kuksa_val_services.Main.{Threads, shut_down}
use kuksa_val_services.System.{
  SystemEvent, reads, requests, component_requests, responds, finishes, feeder_steps, connects,
  ends, subscriber_starts, with_adjuster, step_during, is_updating, on_system_event, run_system,
}
use kuksa_val_services.System.History.{
  all_calls, step_events, feeder_events, told_calls, history, run-history,
}

-- The feeder's own steps among the events of the service.
abbrev pub turns : SystemEvent → ℕ
turns (feeder_steps e rs) = 1
turns _ = 0

abbrev pub feeder_turns : List SystemEvent → ℕ
feeder_turns [] = 0
feeder_turns (e ∷ es) = turns e + feeder_turns es

-- The thread of the subscriber does not start among the events.
abbrev is_start : SystemEvent → Bool
is_start subscriber_starts = true
is_start _ = false

abbrev pub NoStart : List SystemEvent → Type 0
NoStart es = All (λ e. is_start e ≡ false) es

own_steps-append : (es fs : List Event) → own_steps (es ++ fs) ≡ own_steps es + own_steps fs
own_steps-append [] fs = omega arith
own_steps-append (steps e ∷ es) fs = ground (arith, own_steps-append es fs)
own_steps-append (calls_in c ∷ es) fs = own_steps-append es fs
own_steps-append (connection b ∷ es) fs = own_steps-append es fs

own_steps-all_calls : (cs : List Call) → own_steps (all_calls cs) ≡ 0
own_steps-all_calls [] = refl
own_steps-all_calls (c ∷ cs) = own_steps-all_calls cs

own_steps-step_events :
    (b : Bool) (e : Surroundings) (cs : List Call) → own_steps (step_events b e cs) ≡ 1
own_steps-step_events true e cs = refl
own_steps-step_events false e cs = ground (
  arith,
  own_steps-append (all_calls cs) (steps (record e { meanwhile = [] }) ∷ []),
  own_steps-all_calls cs,
)

module _ (exit_on_error : Bool) (p : Platform) (name : String) where
  abbrev calls_of : SystemEvent → Threads Adjuster → List Call
  calls_of e t = told_calls exit_on_error p name e t

  own_steps-feeder_events :
      (e : SystemEvent) (t : Threads Adjuster)
      → own_steps (feeder_events exit_on_error p name e t) ≡ turns e
  own_steps-feeder_events (feeder_steps e rs) t =
      own_steps-step_events (is_updating t.feeder_thread) e (calls_of (feeder_steps e rs) t)
  own_steps-feeder_events (reads rs) t = own_steps-all_calls (calls_of (reads rs) t)
  own_steps-feeder_events (requests arrivals seat) t =
      own_steps-all_calls (calls_of (requests arrivals seat) t)
  own_steps-feeder_events (component_requests arrivals location component position) t =
      own_steps-all_calls (calls_of (component_requests arrivals location component position) t)
  own_steps-feeder_events (responds arrivals updates) t =
      own_steps-all_calls (calls_of (responds arrivals updates) t)
  own_steps-feeder_events (finishes code) t = refl
  own_steps-feeder_events (connects b) t = refl
  own_steps-feeder_events subscriber_starts t = refl
  own_steps-feeder_events ends t = refl

  pub own_steps-history :
      (es : List SystemEvent) (t : Threads Adjuster)
      → own_steps (history exit_on_error p name es t) ≡ feeder_turns es
  own_steps-history [] t = refl
  own_steps-history (e ∷ es) t =
      let u : Threads Adjuster = on_system_event exit_on_error p name e t in
      ground (
        arith,
        own_steps-append (feeder_events exit_on_error p name e t)
            (history exit_on_error p name es u),
        own_steps-feeder_events e t,
        own_steps-history es u,
      )

  on_system_event-stopped :
      (e : SystemEvent) (t : Threads Adjuster)
      → is_start e ≡ false
      → t.subscriber_thread.running ≡ false
      → (on_system_event exit_on_error p name e t).subscriber_thread.running ≡ false
  unfolding on_system_event with_adjuster step_during after_finish shut_down shutdown
  on_system_event-stopped e t n h = ground arith

  run_system-stopped :
      (es : List SystemEvent) (t : Threads Adjuster)
      → NoStart es
      → t.subscriber_thread.running ≡ false
      → (run_system exit_on_error p name es t).subscriber_thread.running ≡ false
  unfolding run_system
  run_system-stopped [] t n h = h
  run_system-stopped (e ∷ es) t (n, ns) h =
      run_system-stopped es (on_system_event exit_on_error p name e t) ns
        (on_system_event-stopped e t n h)

  -- When Run ends, and the thread of the subscriber does not make its first statements only after that,
  -- the loop of the subscriber does not begin again, and the feeder's Run returns within three more of its
  -- steps, whatever frames, requests and answers of the broker come meanwhile.
  pub run_system_ends :
      (es : List SystemEvent) (t : Threads Adjuster)
      → NoStart es
      → 3 ≤ feeder_turns es
      → let u = run_system exit_on_error p name es (on_system_event exit_on_error p name ends t) in
        (u.feeder_thread.phase ≡ stopped) × (u.subscriber_thread.running ≡ false)
  unfolding on_system_event shut_down shutdown
  run_system_ends es t n h =
      let s : Threads Adjuster = shut_down t in
      let same = run-history exit_on_error p name es s in
      let count = own_steps-history es s in
      let (off, stop) =
        shutdown_stops (history exit_on_error p name es s) t.feeder_thread (omega arith) in
      (ap (λ (m : Machine). m.phase) (sym same) ∙ stop, run_system-stopped es s n refl)
