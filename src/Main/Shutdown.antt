-- ===== src/Main/Shutdown.antt =====
-- The end of Run in main.cc: both threads are told to stop, and joined.
use kuksa_val_services.Prelude.{◌≤◌, ◌≡◌, refl, List}
use kuksa_val_services.Adjuster.Interface.{SeatAdjuster}
use kuksa_val_services.Feeder.Run.{Event, stopped, run}
use kuksa_val_services.Feeder.Stopping.{own_steps, shutdown_stops}
use kuksa_val_services.Subscriber.{Attempt, run_loop, shutdown}
use kuksa_val_services.Subscriber.Attempts.{run_loop_stopped}
use kuksa_val_services.Main.{Threads, shut_down}

module _ {S : Type 0} (adjuster : SeatAdjuster S) where
  -- After the shutdown both threads end: the feeder's returns within three of its steps, whatever the
  -- broker answers and other threads do, and the subscriber's loop makes no further pass.
  pub shut_down_joins :
      (t : Threads S) (es : List Event) (passes : List Attempt)
      → 3 ≤ own_steps es
      → ((run es (shut_down t).feeder_thread).phase ≡ stopped)
        × (run_loop adjuster passes (shut_down t).subscriber_thread
            ≡ (shut_down t).subscriber_thread)
  unfolding shut_down
  shut_down_joins t es passes h = (
    (shutdown_stops es t.feeder_thread h).1,
    run_loop_stopped adjuster passes (shutdown t.subscriber_thread) (unfold shutdown in refl),
  )
