-- ===== src/Examples/Informing.antt =====
-- The way of a position to the data broker, with a broker that registers the seat's name.
use kuksa_val_services.Prelude.{pos, ◌≡◌, refl, true, List, [], ◌∷◌, All, arith, ◌++◌}
use kuksa_val_services.Prelude.Dict.{insert, lookup, String_eq}
use kuksa_val_services.Adjuster.Impl.{
  Adjuster, get_seat_position, construct, construct_subscribed, construct_opened,
  subscribe_position, on_reads, with_seat, absorb, seatctrl_event_cb, call_cb,
}
use kuksa_val_services.Feeder.Datapoint.{uint32_value}
use kuksa_val_services.Main.{Threads, seat_pos_vss_4, metadata_4}
use kuksa_val_services.System.{
  SystemEvent, subscriber_starts, connects, feeder_steps, run_system, adjuster_of, on_system_event,
  with_adjuster, step_during,
}
use kuksa_val_services.System.History.{history}
use kuksa_val_services.System.Informing.{HasGot, DifferentIds, service_informs}
use kuksa_val_services.Controller.Commands.{get_position, set_event_callback, is_ctl_running}
use kuksa_val_services.Controller.Lifecycle.{
  default_config, check_rpm, init_ctx, open_ctx, bind_and_start,
}
use kuksa_val_services.Controller.Status.{handle_secu_stat, take_stat, notify_position}
use kuksa_val_services.Controller.ControlLoop.{control_loop, update_learned_mode}
use kuksa_val_services.Controller.Thread.{thread_loop, on_read, on_frame}
use kuksa_val_services.Subscriber.{run_start}
use kuksa_val_services.Feeder.State.{Update, cleanup, call, calls, feed_value, status_is_ok}
use kuksa_val_services.Feeder.Sending.{feed_stored_values, feed_to_broker}
use kuksa_val_services.Feeder.Run.{
  Surroundings, step, dispatch, connect, feed_round, end_round, on_call, on_connection, wait_round,
}
use kuksa_val_services.Feeder.Registration.{
  register_datapoints, check_datapoints, get_metadata, all_known, cache_metadata, take_ids,
}
use kuksa_val_services.Feeder.Registered.{GivesId}
use kuksa_val_services.Feeder.Shared.{ConnectedKnown}
use kuksa_val_services.Examples.System.{starting, changed, changing_events, has_changed}
use kuksa_val_services.Feeder.Requests.{IdsDiffer}
use kuksa_val_services.Feeder.Progress.{IsGood}
use kuksa_val_services.Feeder.Delivers.{AllGood}
use kuksa_val_services.Examples.{platform, blank, stat_read, open_calls, no_environment}
use kuksa_val_services.Examples.Motor.{open_calls-AllSucceed}
use kuksa_val_services.Examples.Broker.{good}
use kuksa_val_services.Examples.Service.{options}

-- The broker knows no name, and registers the seat's.
abbrev naming : Surroundings
naming = record good {
  replies = record (good.replies) {
    metadata_list = [];
    register_results = (seat_pos_vss_4, 9) ∷ [];
  };
}

-- The thread of the subscriber connects the client too.
abbrev events_before : List SystemEvent
events_before = subscriber_starts ∷ feeder_steps naming (stat_read 22 ∷ []) ∷ connects true ∷ []

abbrev events_after : List SystemEvent
events_after = feeder_steps naming [] ∷ feeder_steps naming [] ∷ feeder_steps naming [] ∷ []

abbrev naming_service : Threads Adjuster
naming_service = run_system true platform seat_pos_vss_4 events_before changed

naming-IsGood : IsGood naming
naming-IsGood = record {
  reached = refl;
  knows = unfold status_is_ok in refl;
  registers = unfold status_is_ok in refl;
  takes = unfold status_is_ok in refl;
}

naming-GivesId : GivesId seat_pos_vss_4 naming.replies
unfolding lookup
naming-GivesId = λ o n. ground (arith, String_eq.beq_iff seat_pos_vss_4 seat_pos_vss_4)

single_id : IdsDiffer ((seat_pos_vss_4, 9) ∷ [])
unfolding lookup
single_id a b id h k =
    ground (arith, String_eq.beq_iff seat_pos_vss_4 a, String_eq.beq_iff seat_pos_vss_4 b)

naming_service-known : get_seat_position (adjuster_of naming_service) ≡ pos 22
unfolding run_system on_system_event with_adjuster step_during get_seat_position get_position
    construct construct_subscribed construct_opened default_config check_rpm init_ctx open_ctx
    bind_and_start set_event_callback subscribe_position run_start on_reads with_seat absorb
    seatctrl_event_cb call_cb thread_loop on_read on_frame handle_secu_stat take_stat
    notify_position control_loop update_learned_mode is_ctl_running on_call
naming_service-known = refl

naming_service-active : naming_service.feeder_thread.feeder.feeder_active ≡ true
unfolding run_system on_system_event with_adjuster step_during get_seat_position get_position
    construct construct_subscribed construct_opened default_config check_rpm init_ctx open_ctx
    bind_and_start set_event_callback subscribe_position run_start on_reads with_seat absorb
    seatctrl_event_cb call_cb thread_loop on_read on_frame handle_secu_stat take_stat
    notify_position control_loop update_learned_mode is_ctl_running step dispatch feed_round
    on_connection end_round cleanup on_call call feed_value feed_stored_values connect
    register_datapoints check_datapoints get_metadata status_is_ok lookup insert all_known
    cache_metadata take_ids
naming_service-active = refl

events_after-AllGood :
    AllGood seat_pos_vss_4
      (uint32_value 220)
      (history true platform seat_pos_vss_4 events_after naming_service)
unfolding run_system on_system_event with_adjuster step_during get_seat_position get_position
    construct construct_subscribed construct_opened default_config check_rpm init_ctx open_ctx
    bind_and_start set_event_callback subscribe_position run_start on_reads with_seat absorb
    seatctrl_event_cb call_cb thread_loop on_read on_frame handle_secu_stat take_stat
    notify_position control_loop update_learned_mode is_ctl_running step dispatch feed_round
    on_connection end_round cleanup on_call call feed_value feed_stored_values connect
    register_datapoints check_datapoints get_metadata status_is_ok lookup insert feed_to_broker
    calls wait_round all_known cache_metadata take_ids
events_after-AllGood = (naming-IsGood, tt, (naming-IsGood, tt, (naming-IsGood, tt, tt)))

only_connected :
    ConnectedKnown seat_pos_vss_4
      (history true platform seat_pos_vss_4
        (changing_events ++ (events_before ++ events_after))
        starting)
      starting.feeder_thread
unfolding run_system on_system_event with_adjuster step_during get_seat_position get_position
    construct construct_subscribed construct_opened default_config check_rpm init_ctx open_ctx
    bind_and_start set_event_callback subscribe_position run_start on_reads with_seat absorb
    seatctrl_event_cb call_cb thread_loop on_read on_frame handle_secu_stat take_stat
    notify_position control_loop update_learned_mode is_ctl_running step dispatch feed_round
    on_connection end_round cleanup on_call call feed_value feed_stored_values connect
    register_datapoints check_datapoints get_metadata status_is_ok lookup insert feed_to_broker
    calls wait_round all_known cache_metadata take_ids
only_connected = (
  naming-GivesId,
  (
    (λ t o n. ground (arith, String_eq.beq_iff seat_pos_vss_4 seat_pos_vss_4)),
    (naming-GivesId, (naming-GivesId, (naming-GivesId, tt))),
  ),
)

abbrev informed : List Update
informed =
    (run_system true platform seat_pos_vss_4 events_after
      naming_service).feeder_thread.feeder.updates

informed-DifferentIds : All DifferentIds informed
unfolding run_system on_system_event with_adjuster step_during get_seat_position get_position
    construct construct_subscribed construct_opened default_config check_rpm init_ctx open_ctx
    bind_and_start set_event_callback subscribe_position run_start on_reads with_seat absorb
    seatctrl_event_cb call_cb thread_loop on_read on_frame handle_secu_stat take_stat
    notify_position control_loop update_learned_mode is_ctl_running step dispatch feed_round
    on_connection end_round cleanup on_call call feed_value feed_stored_values connect
    register_datapoints check_datapoints get_metadata status_is_ok lookup insert feed_to_broker
    calls wait_round all_known cache_metadata take_ids
informed-DifferentIds = (single_id, tt)

service_informs_example : HasGot seat_pos_vss_4 (uint32_value 220) metadata_4 informed
service_informs_example =
    service_informs true platform (stat_read 20 ∷ []) 5 1 3 no_environment open_calls options blank
      changing_events events_before events_after 22 open_calls-AllSucceed (λ e. ground arith) refl
      has_changed naming_service-known naming_service-active events_after-AllGood (omega arith)
      only_connected informed-DifferentIds
