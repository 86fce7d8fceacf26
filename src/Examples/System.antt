-- ===== src/Examples/System.antt =====
-- The theorem on the running service, at a concrete start and concrete events.
use kuksa_val_services.Prelude.{pos, ◌≡◌, ◌≤◌, refl, true, false, List, [], ◌∷◌, arith}
use kuksa_val_services.Prelude.Dict.{insert, lookup}
use kuksa_val_services.Adjuster.Impl.{
  Adjuster, get_seat_position, construct, on_reads, with_seat, absorb,
}
use kuksa_val_services.Feeder.Datapoint.{uint32_value}
use kuksa_val_services.Feeder.Keeping.{IsKept}
use kuksa_val_services.Main.{Threads, seat_pos_vss_4, metadata_4}
use kuksa_val_services.System.{
  SystemEvent, reads, feeder_steps, connects, ends, subscriber_starts, run_system, adjuster_of,
}
use kuksa_val_services.System.Running.{service, service_up_to_date}
use kuksa_val_services.Controller.Commands.{get_position, set_event_callback, is_ctl_running}
use kuksa_val_services.Controller.Lifecycle.{
  default_config, check_rpm, init_ctx, open_ctx, bind_and_start,
}
use kuksa_val_services.Controller.Status.{handle_secu_stat, take_stat, notify_position}
use kuksa_val_services.Controller.ControlLoop.{control_loop, update_learned_mode}
use kuksa_val_services.Controller.Thread.{thread_loop, on_read, on_frame}
use kuksa_val_services.Adjuster.Impl.{
  construct_subscribed, construct_opened, subscribe_position, seatctrl_event_cb, call_cb,
}
use kuksa_val_services.Subscriber.{run_start}
use kuksa_val_services.Feeder.State.{cleanup, call, calls, feed_value, status_is_ok}
use kuksa_val_services.Feeder.Sending.{feed_stored_values, feed_to_broker}
use kuksa_val_services.Feeder.Run.{
  stopped, step, dispatch, connect, feed_round, end_round, on_call, wait_round,
}
use kuksa_val_services.Feeder.Registration.{register_datapoints, check_datapoints, get_metadata}
use kuksa_val_services.System.{on_system_event, with_adjuster, step_during}
use kuksa_val_services.System.Ending.{run_system_ends}
use kuksa_val_services.Examples.{platform, blank, stat_read, open_calls, no_environment}
use kuksa_val_services.Examples.Motor.{open_calls-AllSucceed}
use kuksa_val_services.Examples.Broker.{good}
use kuksa_val_services.Examples.Requests.{good-IsGood}
use kuksa_val_services.Feeder.Delivers.{AllGood}
use kuksa_val_services.Feeder.Keeping.{IsSent}
use kuksa_val_services.System.History.{history}
use kuksa_val_services.System.Delivering.{service_delivers}
use kuksa_val_services.Examples.Service.{options}
use kuksa_val_services.Examples.Clients.{idle_adjuster}
use kuksa_val_services.System.Types.{IsTypedRequest, service_types}
use kuksa_val_services.System.{start_threads}
use kuksa_val_services.Main.{wire, seat_pos_name_of}
use kuksa_val_services.Prelude.{All, none, ◌≢◌}
use kuksa_val_services.Prelude.Dict.{insert_new, String_eq}
use kuksa_val_services.Feeder.Sending.{add_initial_values, build_request}
use kuksa_val_services.Feeder.Registration.{all_known, cache_metadata}
use kuksa_val_services.Feeder.Run.{waiting}

-- The motor is at 20 percent before the callback is set.
abbrev pub starting : Threads Adjuster
starting = service true platform (stat_read 20 ∷ []) 5 1 3 no_environment open_calls options blank

abbrev pub changing_events : List SystemEvent
changing_events = reads (stat_read 21 ∷ []) ∷ []

abbrev pub changed : Threads Adjuster
changed = run_system true platform seat_pos_vss_4 changing_events starting

abbrev events : List SystemEvent
events = subscriber_starts ∷ feeder_steps good (stat_read 22 ∷ []) ∷ []

abbrev running : Threads Adjuster
running = run_system true platform seat_pos_vss_4 events changed

starting-known : get_seat_position (adjuster_of starting) ≡ pos 20
unfolding run_system on_system_event with_adjuster step_during get_seat_position get_position
    construct construct_subscribed construct_opened default_config check_rpm init_ctx open_ctx
    bind_and_start set_event_callback subscribe_position run_start on_reads with_seat absorb
    seatctrl_event_cb call_cb thread_loop on_read on_frame handle_secu_stat take_stat
    notify_position control_loop update_learned_mode is_ctl_running on_call
starting-known = refl

changed-known : get_seat_position (adjuster_of changed) ≡ pos 21
unfolding run_system on_system_event with_adjuster step_during get_seat_position get_position
    construct construct_subscribed construct_opened default_config check_rpm init_ctx open_ctx
    bind_and_start set_event_callback subscribe_position run_start on_reads with_seat absorb
    seatctrl_event_cb call_cb thread_loop on_read on_frame handle_secu_stat take_stat
    notify_position control_loop update_learned_mode is_ctl_running on_call
changed-known = refl

pub has_changed : get_seat_position (adjuster_of changed) ≢ get_seat_position (adjuster_of starting)
has_changed = λ e. ground (arith, starting-known, changed-known, e)

-- What has been read before the callback was set is known, and is never fed: the request holds the initial
-- value that says that no position is available.
early_position_unfed :
    let t =
      run_system true platform seat_pos_vss_4
        (feeder_steps good [] ∷ feeder_steps good (stat_read 20 ∷ []) ∷ feeder_steps good [] ∷ [])
        starting in
    (get_seat_position (adjuster_of t) ≡ pos 20)
    × (lookup seat_pos_vss_4 t.feeder_thread.feeder.stored_values ≡ none)
    × (t.feeder_thread.phase ≡ waiting false)
unfolding run_system on_system_event with_adjuster step_during get_seat_position get_position
    construct construct_subscribed construct_opened default_config check_rpm init_ctx open_ctx
    bind_and_start set_event_callback subscribe_position run_start on_reads with_seat absorb
    seatctrl_event_cb call_cb thread_loop on_read on_frame handle_secu_stat take_stat
    notify_position control_loop update_learned_mode is_ctl_running on_call step dispatch connect
    register_datapoints check_datapoints get_metadata status_is_ok lookup feed_round
    feed_stored_values feed_to_broker calls wait_round end_round insert add_initial_values
    cache_metadata all_known build_request insert_new
early_position_unfed = (refl, refl, refl)

running-known : get_seat_position (adjuster_of running) ≡ pos 22
unfolding run_system on_system_event with_adjuster step_during get_seat_position get_position
    construct construct_subscribed construct_opened default_config check_rpm init_ctx open_ctx
    bind_and_start set_event_callback subscribe_position run_start on_reads with_seat absorb
    seatctrl_event_cb call_cb thread_loop on_read on_frame handle_secu_stat take_stat
    notify_position control_loop update_learned_mode is_ctl_running on_call
running-known = refl

running-active : running.feeder_thread.feeder.feeder_active ≡ true
unfolding run_system on_system_event with_adjuster step_during get_seat_position get_position
    construct construct_subscribed construct_opened default_config check_rpm init_ctx open_ctx
    bind_and_start set_event_callback subscribe_position run_start on_reads with_seat absorb
    seatctrl_event_cb call_cb thread_loop on_read on_frame handle_secu_stat take_stat
    notify_position control_loop update_learned_mode is_ctl_running step dispatch feed_round
    end_round cleanup on_call call feed_value feed_stored_values connect register_datapoints
    check_datapoints get_metadata status_is_ok lookup insert
running-active = refl

service_up_to_date_example :
    (22 ≤ 100) × IsKept seat_pos_vss_4 (uint32_value 220) metadata_4 running.feeder_thread.feeder
service_up_to_date_example =
    service_up_to_date true platform (stat_read 20 ∷ []) 5 1 3 no_environment open_calls options
      blank changing_events events 22 open_calls-AllSucceed (λ e. ground arith) refl has_changed
      running-known running-active

-- Frames and a disconnection while the threads end.
abbrev last_events : List SystemEvent
last_events =
    feeder_steps good (stat_read 23 ∷ [])
    ∷ reads (stat_read 24 ∷ [])
    ∷ connects false
    ∷ feeder_steps good []
    ∷ feeder_steps good []
    ∷ []

run_system_ends_example :
    let u =
      run_system true platform seat_pos_vss_4 last_events
        (on_system_event true platform seat_pos_vss_4 ends running) in
    (u.feeder_thread.phase ≡ stopped) × (u.subscriber_thread.running ≡ false)
run_system_ends_example =
    run_system_ends true platform seat_pos_vss_4 last_events running
      (refl, (refl, (refl, (refl, (refl, tt))))) (omega arith)

-- Three steps of the feeder, with no frame that changes the position.
abbrev quiet_events : List SystemEvent
quiet_events = feeder_steps good [] ∷ feeder_steps good [] ∷ feeder_steps good [] ∷ []

quiet_events-AllGood :
    AllGood seat_pos_vss_4
      (uint32_value 220)
      (history true platform seat_pos_vss_4 quiet_events running)
unfolding run_system on_system_event with_adjuster step_during get_seat_position get_position
    construct construct_subscribed construct_opened default_config check_rpm init_ctx open_ctx
    bind_and_start set_event_callback subscribe_position run_start on_reads with_seat absorb
    seatctrl_event_cb call_cb thread_loop on_read on_frame handle_secu_stat take_stat
    notify_position control_loop update_learned_mode is_ctl_running step dispatch feed_round
    end_round cleanup on_call call feed_value feed_stored_values connect register_datapoints
    check_datapoints get_metadata status_is_ok lookup insert feed_to_broker calls wait_round
quiet_events-AllGood = (good-IsGood, tt, (good-IsGood, tt, (good-IsGood, tt, tt)))

service_delivers_example :
    IsSent seat_pos_vss_4
      (uint32_value 220)
      metadata_4
      (run_system true platform seat_pos_vss_4 quiet_events running).feeder_thread.feeder.updates
service_delivers_example =
    service_delivers true platform (stat_read 20 ∷ []) 5 1 3 no_environment open_calls options blank
      changing_events events quiet_events 22 open_calls-AllSucceed (λ e. ground arith) refl
      has_changed running-known running-active quiet_events-AllGood (omega arith)

-- The feeder connects, and sends the initial values and the position.
abbrev sending_events : List SystemEvent
sending_events =
    reads (stat_read 21 ∷ [])
    ∷ feeder_steps good []
    ∷ feeder_steps good (stat_read 23 ∷ [])
    ∷ feeder_steps good []
    ∷ []

service_types_example :
    All
      (IsTypedRequest options)
      (run_system true platform
        (seat_pos_name_of options)
        sending_events
        (start_threads (wire idle_adjuster 3 options))).feeder_thread.feeder.updates
service_types_example = service_types true platform idle_adjuster 3 options sending_events

-- A Shutdown that comes before the thread of the subscriber has made its first statements is lost.
early_shutdown_lost :
    (run_system true platform seat_pos_vss_4
      (ends ∷ subscriber_starts ∷ [])
      starting).subscriber_thread.running
    ≡ true
unfolding run_system on_system_event run_start
early_shutdown_lost = refl
