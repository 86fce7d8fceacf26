-- ===== src/Feeder/Alike.antt =====
-- data_broker_feeder.cc: the feeder up to the order in which its unordered maps are iterated.
pub mod Sending
pub mod Runs
use kuksa_val_services.Prelude.{ℕ, Bool, false, List, [], ◌∷◌, ◌≡◌, refl, String, arith}
use kuksa_val_services.Prelude.Dict.{
  Dict, HasDistinctKeys, insert-HasDistinctKeys, insert_all-HasDistinctKeys, String_eq, ℕ_eq,
}
use kuksa_val_services.Prelude.Order.{
  SameEntries, insert-SameEntries, insert_all-SameEntries, if_related,
}
use kuksa_val_services.Feeder.Datapoint.{Datapoint}
use kuksa_val_services.Feeder.State.{
  Feeder, Update, Metadata, Call, feeds, feeds_all, shuts_down, call, calls, store_value,
  store_values, feed_value, feed_values, shutdown,
}
use kuksa_val_services.Feeder.Requests.{IdsDiffer}

-- Two calls of UpdateDatapoints with the same values, if no two names have the same id.
pub record AlikeUpdate (u v : Update) : Type 0 where
  pub ids : SameEntries u.ids v.ids
  pub datapoints : IdsDiffer u.ids → SameEntries u.datapoints v.datapoints
  pub status : u.status ≡ v.status

abbrev pub AlikeUpdates : List Update → List Update → Type 0
AlikeUpdates [] [] = Unit
AlikeUpdates [] (v ∷ vs) = ⊥
AlikeUpdates (u ∷ us) [] = ⊥
AlikeUpdates (u ∷ us) (v ∷ vs) = AlikeUpdate u v × AlikeUpdates us vs

-- Two maps with the same entries, each key once in both.
abbrev pub SameMap : {V : Type 0} → Dict String V → Dict String V → Type 0
SameMap m n = SameEntries m n × HasDistinctKeys m × HasDistinctKeys n

-- Two feeders that differ in the order of the entries of their maps at most.
pub record Alike (f g : Feeder) : Type 0 where
  pub dp_config : f.dp_config ≡ g.dp_config
  pub stored_values : SameMap f.stored_values g.stored_values
  pub id_map : SameEntries f.id_map g.id_map
  pub dp_meta : SameMap f.dp_meta g.dp_meta
  pub feeder_active : f.feeder_active ≡ g.feeder_active
  pub feeder_ready : f.feeder_ready ≡ g.feeder_ready
  pub connected : f.connected ≡ g.connected
  pub updates : AlikeUpdates f.updates g.updates

-- Two calls of a client that differ in the order of the values at most.
pub data AlikeCall : Call → Call → Type 0 where
  one_value : (name : String) (value : Datapoint) → AlikeCall (feeds name value) (feeds name value)
  many_values :
      (values others : Dict String Datapoint)
      → SameMap values others
      → AlikeCall (feeds_all values) (feeds_all others)
  both_shut_down : AlikeCall shuts_down shuts_down

pub data AlikeCalls : List Call → List Call → Type 0 where
  no_calls : AlikeCalls [] []
  next_call :
      {c d : Call} {cs ds : List Call}
      → AlikeCall c d
      → AlikeCalls cs ds
      → AlikeCalls (c ∷ cs) (d ∷ ds)

-- With other stored values.
pub Alike-stored :
    (f g : Feeder) (m n : Dict String Datapoint)
    → Alike f g
    → SameMap m n
    → Alike (record f { stored_values = m }) (record g { stored_values = n })
Alike-stored f g m n a s = record {
  dp_config = a.dp_config;
  stored_values = s;
  id_map = a.id_map;
  dp_meta = a.dp_meta;
  feeder_active = a.feeder_active;
  feeder_ready = a.feeder_ready;
  connected = a.connected;
  updates = a.updates;
}

-- With other flags.
pub Alike-flags :
    (f g : Feeder) (x y b c r s : Bool)
    → Alike f g
    → x ≡ y
    → b ≡ c
    → r ≡ s
    → Alike
        (record f { feeder_active = x; connected = b; feeder_ready = r })
        (record g { feeder_active = y; connected = c; feeder_ready = s })
Alike-flags f g x y b c r s a e h k = record {
  dp_config = a.dp_config;
  stored_values = a.stored_values;
  id_map = a.id_map;
  dp_meta = a.dp_meta;
  feeder_active = e;
  feeder_ready = k;
  connected = h;
  updates = a.updates;
}

-- With other metadata and ids.
pub Alike-ids :
    (f g : Feeder) (i j : Dict String ℕ) (m n : Dict String Metadata)
    → Alike f g
    → SameEntries i j
    → SameMap m n
    → Alike (record f { id_map = i; dp_meta = m }) (record g { id_map = j; dp_meta = n })
Alike-ids f g i j m n a e h = record {
  dp_config = a.dp_config;
  stored_values = a.stored_values;
  id_map = e;
  dp_meta = h;
  feeder_active = a.feeder_active;
  feeder_ready = a.feeder_ready;
  connected = a.connected;
  updates = a.updates;
}

store_value-Alike :
    (name : String) (value : Datapoint) (f g : Feeder)
    → Alike f g
    → Alike (store_value name value f) (store_value name value g)
store_value-Alike name value f g a =
    let (s, d, c) = a.stored_values in
    Alike-stored f g _ _ a (
      insert-SameEntries name value f.stored_values g.stored_values s,
      insert-HasDistinctKeys name value f.stored_values d,
      insert-HasDistinctKeys name value g.stored_values c,
    )

store_values-Alike :
    (values others : Dict String Datapoint) (f g : Feeder)
    → SameMap values others
    → Alike f g
    → Alike (store_values values f) (store_values others g)
store_values-Alike values others f g (r, p, q) a =
    let (s, d, c) = a.stored_values in
    Alike-stored f g _ _ a (
      insert_all-SameEntries values others f.stored_values g.stored_values p q r s,
      insert_all-HasDistinctKeys values f.stored_values d,
      insert_all-HasDistinctKeys others g.stored_values c,
    )

pub call-Alike :
    {c d : Call} (f g : Feeder) → AlikeCall c d → Alike f g → Alike (call c f) (call d g)
unfolding call feed_value feed_values shutdown
call-Alike f g (one_value name value) a =
    if_related Alike f.feeder_active g.feeder_active _ f _ g a.feeder_active
      (store_value-Alike name value f g a) a
call-Alike f g (many_values values others s) a =
    if_related Alike f.feeder_active g.feeder_active _ f _ g a.feeder_active
      (store_values-Alike values others f g s a) a
call-Alike f g both_shut_down a =
    if_related Alike f.feeder_active g.feeder_active _ f _ g a.feeder_active
      (Alike-stored (record f { feeder_active = false }) (record g { feeder_active = false }) [] []
        (Alike-flags f g false false f.connected g.connected f.feeder_ready g.feeder_ready a refl
          a.connected a.feeder_ready)
        ((λ k. refl), tt, tt))
      a

pub calls-Alike :
    {cs ds : List Call} (f g : Feeder)
    → AlikeCalls cs ds
    → Alike f g
    → Alike (calls cs f) (calls ds g)
unfolding calls
calls-Alike f g no_calls a = a
calls-Alike f g (next_call {c} {d} h hs) a =
    calls-Alike (call c f) (call d g) hs (call-Alike f g h a)
