-- ===== src/System/Delivering.antt =====
-- From the frame on the bus to the data broker: the position reaches a broker that answers.
use mathlib.Core.Path.{subst}
use kuksa_val_services.Prelude.{ℕ, pos, ◌*◌, ◌≤◌, ◌≡◌, ◌≢◌, Bool, true, List, [], String, arith}
use kuksa_val_services.Controller.Types.{Seat, Platform}
use kuksa_val_services.Controller.Lifecycle.{Environment, OpenCalls}
use kuksa_val_services.Controller.Sessions.{AllSucceed}
use kuksa_val_services.Controller.Thread.{ReadResult}
use kuksa_val_services.Adjuster.Impl.{Adjuster, get_seat_position}
use kuksa_val_services.Feeder.Datapoint.{uint32_value}
use kuksa_val_services.Feeder.Keeping.{IsSent}
use kuksa_val_services.Feeder.Progress.{IsAwake, run-IsAwake}
use kuksa_val_services.Feeder.Delivers.{AllGood, kept_delivers}
use kuksa_val_services.Feeder.Run.{Machine}
use kuksa_val_services.Main.{Threads, Options, seat_pos_name_of, metadata_of}
use kuksa_val_services.System.{SystemEvent, adjuster_of, run_system}
use kuksa_val_services.System.History.{history, run-history}
use kuksa_val_services.System.Ending.{feeder_turns, own_steps-history}
use kuksa_val_services.System.Running.{service, service_up_to_date}

run_system-IsAwake :
    (exit_on_error : Bool) (p : Platform) (name : String) (es : List SystemEvent)
    (t : Threads Adjuster)
    → IsAwake t.feeder_thread
    → IsAwake (run_system exit_on_error p name es t).feeder_thread
run_system-IsAwake exit_on_error p name es t w =
    subst IsAwake (run-history exit_on_error p name es t)
      (run-IsAwake (history exit_on_error p name es t) t.feeder_thread w)

pub service_delivers :
    (exit_on_error : Bool) (p : Platform) (early : List ReadResult) (self event_cb feed_cb : ℕ)
    (env : Environment) (o : OpenCalls) (options : Options) (s : Seat) (es fs gs : List SystemEvent)
    (n : ℕ)
    → AllSucceed o
    → self ≢ 0
    → s.outputs ≡ []
    → let name = seat_pos_name_of options in
      let start = service exit_on_error p early self event_cb feed_cb env o options s in
      let changed = run_system exit_on_error p name es start in
      let t = run_system exit_on_error p name fs changed in
      get_seat_position (adjuster_of changed) ≢ get_seat_position (adjuster_of start)
      → get_seat_position (adjuster_of t) ≡ pos n
      → t.feeder_thread.feeder.feeder_active ≡ true
      → AllGood name (uint32_value (n * 10)) (history exit_on_error p name gs t)
      → 3 ≤ feeder_turns gs
      → IsSent name
          (uint32_value (n * 10))
          (metadata_of options)
          (run_system exit_on_error p name gs t).feeder_thread.feeder.updates
service_delivers exit_on_error p early self event_cb feed_cb env o options s es fs gs n all h q c k
      a g turns =
    let name : String = seat_pos_name_of options in
    let start : Threads Adjuster =
      service exit_on_error p early self event_cb feed_cb env o options s in
    let changed : Threads Adjuster = run_system exit_on_error p name es start in
    let t : Threads Adjuster = run_system exit_on_error p name fs changed in
    let kept =
      (service_up_to_date exit_on_error p early self event_cb feed_cb env o options s es fs n all h
        q c k a).1 in
    let begun : IsAwake changed.feeder_thread =
      run_system-IsAwake exit_on_error p name es start
        ((λ e. ground (arith)), (λ e. ground arith)) in
    let awake : IsAwake t.feeder_thread =
      run_system-IsAwake exit_on_error p name fs changed begun in
    let count = own_steps-history exit_on_error p name gs t in
    subst
      (λ (m : Machine). IsSent name (uint32_value (n * 10)) (metadata_of options) m.feeder.updates)
      (run-history exit_on_error p name gs t)
      (kept_delivers name (uint32_value (n * 10)) (metadata_of options)
        (history exit_on_error p name gs t) t.feeder_thread g awake a kept (omega arith))
