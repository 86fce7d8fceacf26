-- ===== src/Feeder/Shared.antt =====
-- data_broker_feeder.cc: the ids of the calls of UpdateDatapoints, where other users connect the client.
use kuksa_val_services.Prelude.{
  Bool, true, false, List, [], ◌∷◌, ◌≡◌, ◌≢◌, refl, String, none, arith, All,
}
use kuksa_val_services.Prelude.Dict.{String_eq}
use kuksa_val_services.Feeder.State.{DatapointMetadata, new_feeder}
use kuksa_val_services.Feeder.Merging.{initial}
use kuksa_val_services.Feeder.Delivery.{is_outside}
use kuksa_val_services.Feeder.Registered.{
  Knows, IsNamed, GivesId, HasNamed, dispatch-HasNamed, on_call-HasNamed,
}
use kuksa_val_services.Feeder.Run.{
  connecting, Machine, step, at, Event, steps, calls_in, connection, on_event, on_call,
  on_connection, run,
}

-- Events in which the broker gives ids, and another user connects the client only while the feeder is
-- outside the inner loop, or has an id for the name.
abbrev pub ConnectedKnown : String → List Event → Machine → Type 0
ConnectedKnown name [] m = Unit
ConnectedKnown name (steps e ∷ es) m = GivesId name e.replies × ConnectedKnown name es (step e m)
ConnectedKnown name (calls_in c ∷ es) m = ConnectedKnown name es (on_call c m)
ConnectedKnown name (connection b ∷ es) m =
    (b ≡ true → is_outside m.phase ≡ false → Knows name m.feeder)
    × ConnectedKnown name es (on_connection b m)

module _ (name : String) (config : List DatapointMetadata)
    (configured : initial config name ≢ none) where
  on_connection-HasNamed :
      (b : Bool) (m : Machine)
      → (b ≡ true → is_outside m.phase ≡ false → Knows name m.feeder)
      → HasNamed name config configured m
      → HasNamed name config configured (on_connection b m)
  unfolding on_connection
  on_connection-HasNamed b m known (k, c, us) = ((λ o t. known t o), c, us)

  run-known-HasNamed :
      (es : List Event) (m : Machine)
      → ConnectedKnown name es m
      → HasNamed name config configured m
      → HasNamed name config configured (run es m)
  unfolding run on_event step
  run-known-HasNamed [] m o h = h
  run-known-HasNamed (steps e ∷ es) m (g, o) h =
      run-known-HasNamed es (step e m) o
        (dispatch-HasNamed name config configured e m.phase m.feeder g h)
  run-known-HasNamed (calls_in c ∷ es) m o h =
      run-known-HasNamed es (on_call c m) o (on_call-HasNamed name config configured c m h)
  run-known-HasNamed (connection b ∷ es) m (n, o) h =
      run-known-HasNamed es (on_connection b m) o (on_connection-HasNamed b m n h)

  -- Every call of UpdateDatapoints of such a run was made with an id for the name.
  pub known-IsNamed :
      (es : List Event)
      → ConnectedKnown name es (at connecting (new_feeder config))
      → All (IsNamed name) (run es (at connecting (new_feeder config))).feeder.updates
  known-IsNamed es o =
      (run-known-HasNamed es (at connecting (new_feeder config)) o
        ((λ n. absurd (ground arith)), refl, tt)).2
