-- ===== src/Feeder/Typed.antt =====
-- data_broker_feeder.cc: a property of names and values that all that is fed has, all that is sent has.
use mathlib.Core.Path.{subst}
use kuksa_val_services.Prelude.{
  ℕ, Bool, true, false, List, [], ◌∷◌, ◌≡◌, sym, String, some, All, Bool-cases, Option-cases, inl,
  inr, both_branches, each_branch,
}
use kuksa_val_services.Prelude.Dict.{
  Dict, Eq, insert, insert_new, insert_all, insert_new_all, lookup, String_eq, ℕ_eq,
}
use kuksa_val_services.Grpc.{StatusCode}
use kuksa_val_services.Feeder.Datapoint.{Datapoint}
use kuksa_val_services.Feeder.State.{
  Feeder, Update, DatapointMetadata, Call, feeds, feeds_all, shuts_down, call, calls, feed_value,
  feed_values, shutdown, status_is_ok, handle_error,
}
use kuksa_val_services.Feeder.Sending.{
  feed_stored_values, feed_to_broker, restore_values, values_to_feed, add_initial_values,
  build_request, add_datapoint,
}
use kuksa_val_services.Feeder.Keeps.{Same, dispatch-keeps, handle_error-Same}
use kuksa_val_services.Feeder.Run.{Machine, Surroundings, step, on_call, on_connection}

-- Insertion keeps a property of all entries.
module _ {K V : Type 0} ⦃e : Eq K⦄ (R : K → V → Type 0) where
  abbrev pub AllEntries : Dict K V → Type 0
  AllEntries m = All (λ (x : K × V). R x.0 x.1) m

  insert-AllEntries :
      (k : K) (v : V) (m : Dict K V) → R k v → AllEntries m → AllEntries (insert k v m)
  unfolding insert
  insert-AllEntries k v [] r h = (r, tt)
  insert-AllEntries k v ((j, w) ∷ m) r (q, h) =
      each_branch AllEntries (e.beq j k) ((j, v) ∷ m) ((j, w) ∷ insert k v m)
        (λ same. (subst (λ i. R i v) (sym ((e.beq_iff j k).0 same)) r, h))
        (λ other. (q, insert-AllEntries k v m r h))

  insert_new-AllEntries :
      (k : K) (v : V) (m : Dict K V) → R k v → AllEntries m → AllEntries (insert_new k v m)
  unfolding insert_new
  insert_new-AllEntries k v [] r h = (r, tt)
  insert_new-AllEntries k v ((j, w) ∷ m) r (q, h) =
      both_branches AllEntries (e.beq j k) ((j, w) ∷ m) ((j, w) ∷ insert_new k v m) (q, h)
        (q, insert_new-AllEntries k v m r h)

  insert_all-AllEntries :
      (es m : Dict K V) → AllEntries es → AllEntries m → AllEntries (insert_all es m)
  unfolding insert_all
  insert_all-AllEntries [] m d h = h
  insert_all-AllEntries ((k, v) ∷ es) m (r, d) h =
      insert_all-AllEntries es (insert k v m) d (insert-AllEntries k v m r h)

  insert_new_all-AllEntries :
      (es m : Dict K V) → AllEntries es → AllEntries m → AllEntries (insert_new_all es m)
  unfolding insert_new_all
  insert_new_all-AllEntries [] m d h = h
  insert_new_all-AllEntries ((k, v) ∷ es) m (r, d) h =
      insert_new_all-AllEntries es (insert_new k v m) d (insert_new-AllEntries k v m r h)

module _ (Ok : String → Datapoint → Type 0) where
  abbrev pub CallIsOk : Call → Type 0
  CallIsOk (feeds name v) = Ok name v
  CallIsOk (feeds_all values) = AllEntries Ok values
  CallIsOk shuts_down = Unit

  -- Each id of a request is that of a name which has the property with the id's value.
  abbrev pub IsOkUnder : Dict String ℕ → ℕ → Datapoint → Type 0
  IsOkUnder ids id v = (name : String) × (lookup name ids ≡ some id) × Ok name v

  abbrev pub RequestIsOk : Update → Type 0
  RequestIsOk u = AllEntries (IsOkUnder u.ids) u.datapoints

  -- The initial values, what is stored, and what was sent.
  abbrev pub IsOk : Feeder → Type 0
  IsOk f =
      All (λ (d : DatapointMetadata). Ok d.name d.initial_value) f.dp_config
      × AllEntries Ok f.stored_values
      × All RequestIsOk f.updates

  call-IsOk : (c : Call) (f : Feeder) → CallIsOk c → IsOk f → IsOk (call c f)
  unfolding call feed_value feed_values shutdown
  call-IsOk (feeds name v) f r (d, s, u) =
      both_branches IsOk f.feeder_active _ f (d, insert-AllEntries Ok name v f.stored_values r s, u)
        (d, s, u)
  call-IsOk (feeds_all values) f r (d, s, u) =
      both_branches IsOk f.feeder_active _ f
        (d, insert_all-AllEntries Ok values f.stored_values r s, u) (d, s, u)
  call-IsOk shuts_down f r (d, s, u) = both_branches IsOk f.feeder_active _ f (d, tt, u) (d, s, u)

  calls-IsOk : (cs : List Call) (f : Feeder) → All CallIsOk cs → IsOk f → IsOk (calls cs f)
  unfolding calls
  calls-IsOk [] f r h = h
  calls-IsOk (c ∷ cs) f (r, rs) h = calls-IsOk cs (call c f) rs (call-IsOk c f r h)

  add_initial_values-IsOk :
      (ds : List DatapointMetadata) (values : Dict String Datapoint)
      → All (λ (d : DatapointMetadata). Ok d.name d.initial_value) ds
      → AllEntries Ok values
      → AllEntries Ok (add_initial_values ds values)
  unfolding add_initial_values
  add_initial_values-IsOk [] values d h = h
  add_initial_values-IsOk (m ∷ ms) values (r, d) h =
      add_initial_values-IsOk ms (insert_new m.name m.initial_value values) d
        (insert_new-AllEntries Ok m.name m.initial_value values r h)

  values_to_feed-IsOk : (b : Bool) (f : Feeder) → IsOk f → AllEntries Ok (values_to_feed b f)
  values_to_feed-IsOk true f (d, s, u) = add_initial_values-IsOk f.dp_config f.stored_values d s
  values_to_feed-IsOk false f (d, s, u) = s

  build_request-IsOk :
      (ids : Dict String ℕ) (values : Dict String Datapoint) (request : Dict ℕ Datapoint)
      → AllEntries Ok values
      → AllEntries (IsOkUnder ids) request
      → AllEntries (IsOkUnder ids) (build_request ids values request)
  unfolding build_request
  build_request-IsOk ids [] request h q = q
  build_request-IsOk ids ((name, v) ∷ values) request (r, h) q =
      build_request-IsOk ids values (add_datapoint (lookup name ids) v request) h
        (elim (Option-cases (lookup name ids)) [
          | inl e ↦ rw e q
          | inr (id, e) ↦ rw e (insert-AllEntries (IsOkUnder ids) id v request (name, e, r) q)
        ])

  Same-IsOk : (f g : Feeder) → Same g f → IsOk f → IsOk g
  Same-IsOk f g (s, u, c) (d, v, r) = (rw c d, rw s v, rw u r)

  restored-IsOk :
      (values : Dict String Datapoint) (f g : Feeder)
      → AllEntries Ok values
      → Same g f
      → IsOk f
      → IsOk (restore_values values g)
  unfolding restore_values
  restored-IsOk values f g v s h =
      let (d, w, r) = Same-IsOk f g s h in
      (d, insert_new_all-AllEntries Ok values g.stored_values v w, r)

  feed_stored_values-IsOk :
      (reply : StatusCode) (cs : List Call) (b : Bool) (f : Feeder)
      → All CallIsOk cs
      → IsOk f
      → IsOk (feed_stored_values reply cs b f)
  unfolding feed_stored_values feed_to_broker
  feed_stored_values-IsOk reply cs b f r h =
      let values : Dict String Datapoint = values_to_feed b f in
      let v : AllEntries Ok values = values_to_feed-IsOk b f h in
      let fed : Feeder = calls cs (record f { stored_values = [] }) in
      let (d, s, q) = calls-IsOk cs (record f { stored_values = [] }) r (h.0, tt, h.2) in
      let u : Update = record {
        ids = fed.id_map;
        datapoints = build_request fed.id_map values [];
        status = reply;
      } in
      let g : Feeder = record fed { updates = u ∷ fed.updates } in
      let k : IsOk g = (d, s, (build_request-IsOk fed.id_map values [] v tt, q)) in
      elim (Bool-cases (status_is_ok reply)) [
        | inl good ↦ rw good k
        | inr bad ↦
            rw bad (restored-IsOk values g (handle_error reply g) v (handle_error-Same reply g) k)
      ]

  -- What other threads feed in a step has the property.
  abbrev pub FeedsOk : Surroundings → Type 0
  FeedsOk e = All CallIsOk e.meanwhile

  pub step-IsOk :
      (e : Surroundings) (m : Machine) → FeedsOk e → IsOk m.feeder → IsOk (step e m).feeder
  unfolding step
  step-IsOk e m r h =
      dispatch-keeps IsOk Same-IsOk e
        (λ b f k. feed_stored_values-IsOk e.update_status e.meanwhile b f r k) m.phase m.feeder h

  pub on_call-IsOk :
      (c : Call) (m : Machine) → CallIsOk c → IsOk m.feeder → IsOk (on_call c m).feeder
  unfolding on_call
  on_call-IsOk c m r h = call-IsOk c m.feeder r h

  pub on_connection-IsOk :
      (b : Bool) (m : Machine) → IsOk m.feeder → IsOk (on_connection b m).feeder
  unfolding on_connection
  on_connection-IsOk b m h = h
