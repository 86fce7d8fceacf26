-- ===== src/Feeder/Stopping.antt =====
-- The feeder after Shutdown and after an unrecoverable error.
use kuksa_val_services.Prelude.{
  ℕ, suc, ◌-◌, ◌≤◌, Bool, true, false, List, [], ◌∷◌, ◌≡◌, refl, arith,
}
use kuksa_val_services.Grpc.{StatusCode}
use kuksa_val_services.Feeder.State.{
  Feeder, Update, Call, feeds, feeds_all, shuts_down, call, calls, handle_error, cleanup,
  is_unrecoverable, status_is_ok,
}
use kuksa_val_services.Feeder.Sending.{
  feed_stored_values, build_request, values_to_feed, feed_to_broker, restore_values,
}
use kuksa_val_services.Feeder.Run.{
  Phase, connecting, feeding, waiting, stopped, Machine, Surroundings, step, dispatch, feed_round,
  wait_round, end_round, Event, steps, calls_in, connection, on_event, on_call, on_connection, run,
}

-- The feeder cannot be activated again.
handle_error_inactive :
    (code : StatusCode) (f : Feeder)
    → f.feeder_active ≡ false
    → (handle_error code f).feeder_active ≡ false
unfolding handle_error
handle_error_inactive code f h = ground arith

call_inactive : (c : Call) (f : Feeder) → f.feeder_active ≡ false → call c f ≡ f
unfolding call
call_inactive (feeds n v) f h = ground arith
call_inactive (feeds_all vs) f h = ground arith
call_inactive shuts_down f h = ground arith

-- How many steps an inactive machine takes at most until Run returns.
abbrev rank : Phase → ℕ
rank stopped = 0
rank connecting = 1
rank (feeding b) = 2
rank (waiting b) = 3

abbrev IsInactive : Machine → Type 0
IsInactive m = m.feeder.feeder_active ≡ false

dispatch-IsInactive :
    (e : Surroundings) (phase : Phase) (f : Feeder)
    → f.feeder_active ≡ false
    → IsInactive (dispatch e phase f) × (rank (dispatch e phase f).phase ≤ rank phase - 1)
unfolding dispatch wait_round end_round cleanup
dispatch-IsInactive e connecting f h = ground arith
dispatch-IsInactive e (feeding b) f h = ground arith
dispatch-IsInactive e (waiting b) f h = ground arith
dispatch-IsInactive e stopped f h = ground arith

pub step-IsInactive :
    (e : Surroundings) (m : Machine)
    → IsInactive m
    → IsInactive (step e m) × (rank (step e m).phase ≤ rank m.phase - 1)
unfolding step
step-IsInactive e m h = dispatch-IsInactive e m.phase m.feeder h

on_call-IsInactive :
    (c : Call) (m : Machine)
    → IsInactive m
    → IsInactive (on_call c m) × (rank (on_call c m).phase ≡ rank m.phase)
unfolding on_call
on_call-IsInactive c m h = ground (arith, call_inactive c m.feeder h)

on_connection-IsInactive :
    (b : Bool) (m : Machine)
    → IsInactive m
    → IsInactive (on_connection b m) × (rank (on_connection b m).phase ≡ rank m.phase)
unfolding on_connection
on_connection-IsInactive b m h = (h, refl)

-- The steps of the feeder's own thread.
abbrev pub own_steps : List Event → ℕ
own_steps [] = 0
own_steps (steps e ∷ es) = suc (own_steps es)
own_steps (calls_in c ∷ es) = own_steps es
own_steps (connection b ∷ es) = own_steps es

run-IsInactive :
    (es : List Event) (m : Machine)
    → IsInactive m
    → IsInactive (run es m) × (rank (run es m).phase ≤ rank m.phase - own_steps es)
unfolding run on_event
run-IsInactive [] m h = (h, omega arith)
run-IsInactive (steps e ∷ es) m h =
    let (h', less) = step-IsInactive e m h in
    let (i, bound) = run-IsInactive es (step e m) h' in (i, omega arith)
run-IsInactive (calls_in c ∷ es) m h =
    let (h', same) = on_call-IsInactive c m h in
    let (i, bound) = run-IsInactive es (on_call c m) h' in (i, omega arith)
run-IsInactive (connection b ∷ es) m h =
    let (h', same) = on_connection-IsInactive b m h in
    let (i, bound) = run-IsInactive es (on_connection b m) h' in (i, omega arith)

rank-le : (phase : Phase) → rank phase ≤ 3
rank-le connecting = omega arith
rank-le (feeding b) = omega arith
rank-le (waiting b) = omega arith
rank-le stopped = omega arith

rank_zero : (phase : Phase) → rank phase ≡ 0 → phase ≡ stopped
rank_zero connecting h = absurd (omega arith)
rank_zero (feeding b) h = absurd (omega arith)
rank_zero (waiting b) h = absurd (omega arith)
rank_zero stopped h = refl

run_stops :
    (es : List Event) (m : Machine)
    → IsInactive m
    → 3 ≤ own_steps es
    → IsInactive (run es m) × ((run es m).phase ≡ stopped)
run_stops es m i h =
    let (j, bound) = run-IsInactive es m i in
    (j, rank_zero (run es m).phase (omega (arith, rank-le m.phase)))

pub on_call-shuts_down : (m : Machine) → IsInactive (on_call shuts_down m)
unfolding on_call call
on_call-shuts_down m = ground arith

-- After Shutdown the feeder stays inactive, and Run returns within three more steps of its thread,
-- whatever the broker answers and other threads do.
pub shutdown_stops :
    (es : List Event) (m : Machine)
    → 3 ≤ own_steps es
    → let n = run es (on_call shuts_down m) in
      (n.feeder.feeder_active ≡ false) × (n.phase ≡ stopped)
shutdown_stops es m h = run_stops es (on_call shuts_down m) (on_call-shuts_down m) h

unrecoverable_not_ok :
    (code : StatusCode) → is_unrecoverable code ≡ true → status_is_ok code ≡ false
unfolding is_unrecoverable status_is_ok
unrecoverable_not_ok code h = ground arith

handle_error_unrecoverable :
    (code : StatusCode) (f : Feeder)
    → is_unrecoverable code ≡ true
    → (handle_error code f).feeder_active ≡ false
unfolding handle_error
handle_error_unrecoverable code f h = ground arith

feed_stored_values_unrecoverable :
    (reply : StatusCode) (meanwhile : List Call) (b : Bool) (f : Feeder)
    → is_unrecoverable reply ≡ true
    → (feed_stored_values reply meanwhile b f).feeder_active ≡ false
unfolding feed_stored_values feed_to_broker restore_values
feed_stored_values_unrecoverable reply meanwhile b f h =
    let fed : Feeder = calls meanwhile (record f { stored_values = [] }) in
    let u : Update = record {
      ids = fed.id_map;
      datapoints = build_request fed.id_map (values_to_feed b f) [];
      status = reply;
    } in
    ground (
      arith,
      unrecoverable_not_ok reply h,
      handle_error_unrecoverable reply (record fed { updates = u ∷ fed.updates }) h,
    )

-- When the broker answers UpdateDatapoints, called by an active and connected feeder, with
-- INTERNAL, UNAUTHENTICATED or UNIMPLEMENTED, the feeder is deactivated for good, and Run returns
-- within three more steps of its thread.
pub unrecoverable_stops :
    (e : Surroundings) (es : List Event) (m : Machine) (b : Bool)
    → m.phase ≡ feeding b
    → m.feeder.feeder_active ≡ true
    → m.feeder.connected ≡ true
    → is_unrecoverable e.update_status ≡ true
    → 3 ≤ own_steps es
    → let n = run es (step e m) in (n.feeder.feeder_active ≡ false) × (n.phase ≡ stopped)
unfolding step dispatch feed_round end_round cleanup
unrecoverable_stops e es m b p a c u h =
    let off = feed_stored_values_unrecoverable e.update_status e.meanwhile b m.feeder u in
    run_stops es (step e m) (ground (arith, off)) h
