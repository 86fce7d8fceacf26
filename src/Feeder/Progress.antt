-- ===== src/Feeder/Progress.antt =====
-- With a broker that answers, what is fed is sent.
use kuksa_val_services.Prelude.{ℕ, Bool, true, false, List, [], ◌∷◌, ◌≡◌, arith, if◌then◌else◌}
use kuksa_val_services.Prelude.Dict.{String_eq}
use kuksa_val_services.Feeder.State.{
  Feeder, Call, feeds, feeds_all, shuts_down, call, feed_value, feed_values, shutdown, status_is_ok,
}
use kuksa_val_services.Feeder.Sending.{feed_stored_values}
use kuksa_val_services.Feeder.Registration.{
  BrokerReplies, register_datapoints, check_datapoints, get_metadata,
}
use kuksa_val_services.Feeder.Run.{
  Phase, connecting, feeding, waiting, stopped, Machine, Surroundings, step, dispatch, connect, at,
  feed_round, wait_round, end_round, Event, steps, calls_in, connection, on_event, on_call,
  on_connection, run, nothing_stored,
}

-- The wait is not entered with values stored, and Run does not return while the feeder is active.
abbrev pub IsAwake : Machine → Type 0
IsAwake m =
    (m.phase ≡ waiting false → m.feeder.stored_values ≡ [])
    × (m.phase ≡ stopped → m.feeder.feeder_active ≡ false)

-- A broker that can be reached and answers with OK.
pub record IsGood (e : Surroundings) : Type 0 where
  pub reached : e.connects ≡ true
  pub knows : status_is_ok e.replies.metadata_status ≡ true
  pub registers : status_is_ok e.replies.register_status ≡ true
  pub takes : status_is_ok e.update_status ≡ true

register_good :
    (b : BrokerReplies) (f : Feeder)
    → status_is_ok b.metadata_status ≡ true
    → status_is_ok b.register_status ≡ true
    → let r = register_datapoints b f in
      (r.1 ≡ true) × (r.0.feeder_active ≡ f.feeder_active) × (r.0.connected ≡ f.connected)
unfolding register_datapoints check_datapoints get_metadata
register_good b f k r = ground arith

pub connect_good :
    (e : Surroundings) (f : Feeder)
    → IsGood e
    → f.feeder_active ≡ true
    → let m = connect e f in
      (m.phase ≡ feeding true) × (m.feeder.feeder_active ≡ true) × (m.feeder.connected ≡ true)
unfolding connect
connect_good e f g a =
    ground (arith, g, register_good e.replies (record f { connected = true }) g.knows g.registers)

-- The steps until a stored value is sent.
abbrev pub due : Phase → Bool → ℕ
due (feeding b) connected = if connected then 1 else 3
due (waiting b) connected = if connected then 2 else 3
due connecting connected = 2
due stopped connected = 0

nothing_stored-empty : (f : Feeder) → nothing_stored f ≡ true → f.stored_values ≡ []
nothing_stored-empty f h = ground arith

connect-IsAwake : (e : Surroundings) (f : Feeder) → IsAwake (connect e f)
unfolding connect
connect-IsAwake e f = ground arith

end_round-IsAwake : (f : Feeder) → IsAwake (end_round f)
unfolding end_round
end_round-IsAwake f = ground arith

feed_round-IsAwake : (e : Surroundings) (b : Bool) (f : Feeder) → IsAwake (feed_round e b f)
unfolding feed_round
feed_round-IsAwake e b f =
    let g : Feeder = feed_stored_values e.update_status e.meanwhile b f in
    ground (arith, nothing_stored-empty g, end_round-IsAwake g)

pub dispatch-IsAwake :
    (e : Surroundings) (phase : Phase) (f : Feeder)
    → IsAwake (at phase f)
    → IsAwake (dispatch e phase f)
unfolding dispatch wait_round
dispatch-IsAwake e connecting f w = ground (arith, connect-IsAwake e f)
dispatch-IsAwake e (feeding b) f w = ground (arith, feed_round-IsAwake e b f)
dispatch-IsAwake e (waiting b) f w = ground (arith, end_round-IsAwake f)
dispatch-IsAwake e stopped f w = w

pub on_call-IsAwake : (c : Call) (m : Machine) → IsAwake m → IsAwake (on_call c m)
unfolding on_call call feed_value feed_values shutdown
on_call-IsAwake (feeds name v) m w = ground arith
on_call-IsAwake (feeds_all values) m w = ground arith
on_call-IsAwake shuts_down m w = ground arith

pub run-IsAwake : (es : List Event) (m : Machine) → IsAwake m → IsAwake (run es m)
unfolding run on_event on_connection step
run-IsAwake [] m w = w
run-IsAwake (steps e ∷ es) m w = run-IsAwake es (step e m) (dispatch-IsAwake e m.phase m.feeder w)
run-IsAwake (calls_in c ∷ es) m w = run-IsAwake es (on_call c m) (on_call-IsAwake c m w)
run-IsAwake (connection b ∷ es) m w = run-IsAwake es (on_connection b m) w
