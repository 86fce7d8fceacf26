-- ===== src/Feeder/Delivers.antt =====
-- A value that is fed reaches a broker that answers, within three steps.
use kuksa_val_services.Prelude.{
  ◌∙◌, ◌≤◌, Bool, true, List, [], ◌∷◌, ◌≡◌, inl, inr, refl, String, arith,
}
use kuksa_val_services.Prelude.Dict.{lookup-insert, String_eq}
use kuksa_val_services.Feeder.Datapoint.{Datapoint}
use kuksa_val_services.Feeder.State.{DatapointMetadata, feeds, call, feed_value, new_feeder}
use kuksa_val_services.Feeder.Keeping.{
  IsElsewhere, AllElsewhere, IsSent, IsKept, IsOut, IsStored, step-IsOut, call-IsOut, call-lookup,
}
use kuksa_val_services.Feeder.Progress.{
  IsAwake, IsGood, due, dispatch-IsAwake, on_call-IsAwake, run-IsAwake,
}
use kuksa_val_services.Feeder.Sends.{dispatch_good, call_flags}
use kuksa_val_services.Feeder.Names.{call-IsFor, run-IsFor}
use kuksa_val_services.Feeder.Stopping.{own_steps}
use kuksa_val_services.Feeder.Run.{
  Phase, connecting, feeding, waiting, stopped, Machine, step, at, Event, steps, calls_in,
  connection, on_event, on_call, on_connection, run, notify,
}

-- A call or a connection does not put the sending off.
due-notify : (phase : Phase) (c : Bool) → due (notify phase) c ≡ due phase c
due-notify connecting c = refl
due-notify (feeding b) c = refl
due-notify (waiting b) c = refl
due-notify stopped c = refl

due_connected : (phase : Phase) (c : Bool) → due phase true ≤ due phase c
due_connected connecting c = omega arith
due_connected (feeding b) c = ground arith
due_connected (waiting b) c = ground arith
due_connected stopped c = omega arith

due-le : (phase : Phase) (c : Bool) → due phase c ≤ 3
due-le connecting c = omega arith
due-le (feeding b) c = ground arith
due-le (waiting b) c = ground arith
due-le stopped c = omega arith

due_zero : (phase : Phase) (c : Bool) → due phase c ≤ 0 → phase ≡ stopped
due_zero connecting c h = absurd (omega arith)
due_zero (feeding b) c h = absurd (ground arith)
due_zero (waiting b) c h = absurd (ground arith)
due_zero stopped c h = refl

module _ (name : String) (value : Datapoint) where
  -- Events in which the broker answers, and nobody feeds the name, calls Shutdown or disconnects.
  abbrev pub AllGood : List Event → Type 0
  AllGood [] = Unit
  AllGood (steps e ∷ es) = IsGood e × AllElsewhere name value e.meanwhile × AllGood es
  AllGood (calls_in c ∷ es) = IsElsewhere name value c × AllGood es
  AllGood (connection b ∷ es) = (b ≡ true) × AllGood es

module _ (name : String) (value : Datapoint) (config : List DatapointMetadata) where
  run-IsOut :
      (es : List Event) (m : Machine)
      → AllGood name value es
      → IsOut name value config m.feeder
      → IsOut name value config (run es m).feeder
  unfolding run on_event on_call on_connection
  run-IsOut [] m gs o = o
  run-IsOut (steps e ∷ es) m (g, h, gs) o =
      run-IsOut es (step e m) gs (step-IsOut name value config e m h o)
  run-IsOut (calls_in c ∷ es) m (h, gs) o =
      run-IsOut es (on_call c m) gs (call-IsOut name value config c m.feeder h o)
  run-IsOut (connection b ∷ es) m (h, gs) o = run-IsOut es (on_connection b m) gs o

  run_sends :
      (es : List Event) (m : Machine)
      → AllGood name value es
      → IsAwake m
      → m.feeder.feeder_active ≡ true
      → IsStored name value config m.feeder
      → due m.phase m.feeder.connected ≤ own_steps es
      → IsOut name value config (run es m).feeder
  unfolding run on_event step on_call on_connection
  run_sends [] m g w a l d = absurd (ground (arith, w.1 (due_zero m.phase m.feeder.connected d)))
  run_sends (steps e ∷ es) m (g, h, gs) w a l d =
      let (act, next) = dispatch_good name value config e m.phase m.feeder g h w a l in
      elim next [
        | inl out ↦ run-IsOut es (step e m) gs out
        | inr (kept, near) ↦
            run_sends es (step e m) gs (dispatch-IsAwake e m.phase m.feeder w) act kept
              (omega arith)
      ]
  run_sends (calls_in c ∷ es) m (h, gs) w a l d =
      let (act, con) = call_flags name value config c m.feeder h in
      run_sends es (on_call c m) gs (on_call-IsAwake c m w) (ground arith)
        (call-IsFor config c m.feeder l.0, call-lookup name value c m.feeder h ∙ l.1)
        (ground (arith, due-notify m.phase m.feeder.connected))
  run_sends (connection b ∷ es) m (h, gs) w a l d =
      run_sends es (on_connection b m) gs w a l
        (ground (arith, due_connected m.phase m.feeder.connected))

  -- A value that is kept is sent.
  pub kept_delivers :
      (es : List Event) (m : Machine)
      → AllGood name value es
      → IsAwake m
      → m.feeder.feeder_active ≡ true
      → IsKept name value config m.feeder
      → 3 ≤ own_steps es
      → IsSent name value config (run es m).feeder.updates
  kept_delivers es m g w a (inr out) h = (run-IsOut es m g out).2
  kept_delivers es m g w a (inl stored) h =
      (run_sends es m g w a stored (omega (arith, due-le m.phase m.feeder.connected))).2

-- The machine with an empty record of its calls, so that those from now on are counted.
abbrev pub from_now : Machine → Machine
from_now m = record m { feeder = record (m.feeder) { updates = [] } }

pub run_delivers :
    (config : List DatapointMetadata) (before : List Event) (name : String) (value : Datapoint)
    (es : List Event)
    → let m = run before (at connecting (new_feeder config)) in
      m.feeder.feeder_active ≡ true
      → AllGood name value es
      → 3 ≤ own_steps es
      → IsSent name value config (run es (on_call (feeds name value) (from_now m))).feeder.updates
unfolding on_call call feed_value
run_delivers config before name value es a g h =
    let m : Machine = run before (at connecting (new_feeder config)) in
    let n : Machine = on_call (feeds name value) (from_now m) in
    let w : IsAwake m =
      run-IsAwake before (at connecting (new_feeder config))
        ((λ e. ground arith), (λ e. ground arith)) in
    let d = run-IsFor config before (at connecting (new_feeder config)) (refl, tt) in
    kept_delivers name value config es n g (on_call-IsAwake (feeds name value) (from_now m) w)
      (ground arith)
      (inl (
        call-IsFor config (feeds name value) (from_now m).feeder d,
        ground (
          arith,
          lookup-insert name name value m.feeder.stored_values,
          String_eq.beq_iff name name,
        ),
      ))
      h
