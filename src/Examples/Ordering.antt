-- ===== src/Examples/Ordering.antt =====
-- The theorems on the order of iteration, at concrete maps.
use mathlib.Core.List.{Permᴰ}
use kuksa_val_services.Prelude.{List, [], ◌∷◌, ◌≡◌, refl, String, arith}
use kuksa_val_services.Prelude.Dict.{Dict, lookup, String_eq, HasDistinctKeys}
use kuksa_val_services.Prelude.Order.{SameEntries}
use kuksa_val_services.Feeder.Datapoint.{Datapoint, uint32_value}
use kuksa_val_services.Feeder.State.{feeds_all, calls, feed_values, new_feeder}
use kuksa_val_services.Feeder.Run.{connecting, steps, run, at, Event, calls_in}
use kuksa_val_services.Feeder.Alike.{SameMap, many_values, no_calls}
use kuksa_val_services.Feeder.Alike.Runs.{
  AlikeSurroundings, no_events, next_steps, next_call, AlikeMachine, run_order,
}
use kuksa_val_services.Feeder.Store.{store, single_calls, single_calls-order}
use kuksa_val_services.Examples.Broker.{position_name, position_metadata, feeder, good}

abbrev count_name : String
count_name = "Vehicle.Cabin.SeatRowCount"

abbrev two_values : Dict String Datapoint
two_values = (position_name, uint32_value 200) ∷ (count_name, uint32_value 2) ∷ []

abbrev swapped_values : Dict String Datapoint
swapped_values = (count_name, uint32_value 2) ∷ (position_name, uint32_value 200) ∷ []

same_values : SameEntries two_values swapped_values
unfolding lookup
same_values name = ground (
  arith,
  String_eq.beq_iff position_name name,
  String_eq.beq_iff count_name name,
  String_eq.beq_iff position_name count_name,
)

two_values-HasDistinctKeys : HasDistinctKeys two_values
unfolding lookup
two_values-HasDistinctKeys = (refl, (refl, tt))

same_map : SameMap two_values swapped_values
unfolding lookup
same_map = (same_values, two_values-HasDistinctKeys, (refl, (refl, tt)))

single_calls-order_example :
    store (calls (single_calls swapped_values) feeder) ≡ store (feed_values two_values feeder)
single_calls-order_example =
    single_calls-order two_values swapped_values feeder two_values-HasDistinctKeys
      ∣ Permᴰ.swap refl refl ∣₁

good_twice : AlikeSurroundings good good
good_twice = record {
  connects = refl;
  replies = record {
    metadata_status = refl;
    metadata_list = refl;
    register_status = refl;
    register_results = λ name. refl;
  };
  update_status = refl;
  meanwhile = no_calls;
  woken = refl;
}

-- The values are fed in another order.
abbrev feeding : Dict String Datapoint → List Event
feeding values = steps good ∷ calls_in (feeds_all values) ∷ steps good ∷ []

run_order_example :
    AlikeMachine
      (run (feeding two_values) (at connecting (new_feeder (position_metadata ∷ []))))
      (run (feeding swapped_values) (at connecting (new_feeder (position_metadata ∷ []))))
run_order_example =
    run_order (position_metadata ∷ []) (feeding two_values) (feeding swapped_values) (
      next_steps good_twice (
        next_call (many_values two_values swapped_values same_map)
          (next_steps good_twice no_events)))
