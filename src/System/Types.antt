-- ===== src/System/Types.antt =====
-- The types of the values that the service sends, and of the names it registers.
use kuksa_val_services.Prelude.{
  ℕ, zero, suc, ℤ, pos, negsuc, ◌≡◌, ◌<◌, ◌*◌, ◌⊎◌, inl, inr, refl, Bool, Bool-cases, List, [], ◌∷◌,
  ◌++◌, String, All, arith, leb, each_branch,
}
use kuksa_val_services.Controller.Types.{Platform}
use kuksa_val_services.Feeder.Datapoint.{
  Datapoint, Failure, failure_value, uint32_value, uint32_array, not_available, invalid_value,
  create_not_available_value, create_uint32, create_uint32_array, add_values,
}
use kuksa_val_services.Feeder.State.{DatapointMetadata, Update, Call, shuts_down}
use kuksa_val_services.Feeder.Run.{Machine, Surroundings, on_call}
use kuksa_val_services.Feeder.Typed.{
  IsOk, CallIsOk, RequestIsOk, step-IsOk, on_call-IsOk, on_connection-IsOk,
}
use kuksa_val_services.Adjuster.Impl.{Adjuster}
use kuksa_val_services.DataFeeder.{position_datapoint}
use kuksa_val_services.Main.{
  Options, Threads, wire, metadata_of, seat_pos_name_of, shut_down, type_uint8, type_uint16,
  type_uint8_array,
}
use kuksa_val_services.System.{
  SystemEvent, reads, requests, component_requests, responds, finishes, feeder_steps, connects,
  ends, subscriber_starts, with_adjuster, step_during, is_updating, take_event, on_system_event,
  run_system, on_calls, callback_calls, start_threads,
}

-- The values of a DataType: a failure, or a number in the range of the type. The protocol has no
-- numbers of 8 or 16 bits, so 32 bits hold them.
pub data HasType : ℕ → Datapoint → Type 0 where
  fails : (t : ℕ) (f : Failure) → HasType t (failure_value f)
  is_uint8 : (n : ℕ) → n < 256 → HasType type_uint8 (uint32_value n)
  is_uint16 : (n : ℕ) → n < 65536 → HasType type_uint16 (uint32_value n)
  is_uint8_array :
      (ns : List ℕ) → All (λ n. n < 256) ns → HasType type_uint8_array (uint32_array ns)

-- An entry of the configuration gives the name a type that the value has.
abbrev pub IsDeclared : List DatapointMetadata → String → Datapoint → Type 0
IsDeclared [] name v = ⊥
IsDeclared (d ∷ ds) name v = ((d.name ≡ name) × HasType d.data_type v) ⊎ IsDeclared ds name v

-- Whatever the callback is told, the value has the type of 16 bits.
position_datapoint-HasType : (z : ℤ) → HasType type_uint16 (position_datapoint z)
unfolding position_datapoint
position_datapoint-HasType (pos n) =
    each_branch (λ v. HasType type_uint16 v) (leb n 100) (uint32_value (n * 10))
      (failure_value invalid_value) (λ low. is_uint16 (n * 10) (ground arith))
      (λ high. fails type_uint16 invalid_value)
position_datapoint-HasType (negsuc zero) = fails type_uint16 not_available
position_datapoint-HasType (negsuc (suc n)) = fails type_uint16 invalid_value

position-IsDeclared :
    (o : Options) (z : ℤ) → IsDeclared (metadata_of o) (seat_pos_name_of o) (position_datapoint z)
position-IsDeclared o z = elim (Bool-cases o.vss_4) [
  | inl e ↦ rw e (inl (refl, position_datapoint-HasType z))
  | inr e ↦ rw e (inl (refl, position_datapoint-HasType z))
]

-- The initial values have the types that their entries declare.
abbrev HasInitialTypes : List DatapointMetadata → List DatapointMetadata → Type 0
HasInitialTypes config ds =
    All (λ (d : DatapointMetadata). IsDeclared config d.name d.initial_value) ds

counts-HasType : HasType type_uint8_array (create_uint32_array (2 ∷ 3 ∷ []))
unfolding create_uint32_array add_values
counts-HasType = is_uint8_array (2 ∷ 3 ∷ []) (omega arith, (omega arith, tt))

metadata_of-types : (o : Options) → HasInitialTypes (metadata_of o) (metadata_of o)
metadata_of-types o =
    let seat : HasType type_uint16 create_not_available_value = fails type_uint16 not_available in
    let rows : HasType type_uint8 (create_uint32 2) = is_uint8 2 (omega arith) in
    elim (Bool-cases o.vss_4) [
      | inl e ↦
          rw e (
            inl (refl, seat),
            (inr (inl (refl, rows)), (inr (inr (inl (refl, counts-HasType))), tt)),
          )
      | inr e ↦
          rw e (
            inl (refl, seat),
            (inr (inl (refl, rows)), (inr (inr (inl (refl, counts-HasType))), tt)),
          )
    ]

module _ (o : Options) where
  abbrev Declared : String → Datapoint → Type 0
  Declared name v = IsDeclared (metadata_of o) name v

  -- Each id of the request is that of a configured name, and its value has the type of the name.
  abbrev pub IsTypedRequest : Update → Type 0
  IsTypedRequest u = RequestIsOk Declared u

  abbrev IsTyped : Machine → Type 0
  IsTyped m = IsOk Declared m.feeder

  append-IsOk :
      (cs ds : List Call)
      → All (CallIsOk Declared) cs
      → All (CallIsOk Declared) ds
      → All (CallIsOk Declared) (cs ++ ds)
  append-IsOk [] ds h k = k
  append-IsOk (c ∷ cs) ds (r, h) k = (r, append-IsOk cs ds h k)

  callback_calls-IsOk :
      (fed : List (ℕ × ℤ)) → All (CallIsOk Declared) (callback_calls (seat_pos_name_of o) fed)
  callback_calls-IsOk [] = tt
  callback_calls-IsOk ((cb, z) ∷ older) =
      append-IsOk (callback_calls (seat_pos_name_of o) older) _ (callback_calls-IsOk older)
        (position-IsDeclared o z, tt)

  on_calls-IsTyped :
      (cs : List Call) (m : Machine)
      → All (CallIsOk Declared) cs
      → IsTyped m
      → IsTyped (on_calls cs m)
  on_calls-IsTyped [] m r h = h
  on_calls-IsTyped (c ∷ cs) m (r, rs) h =
      on_calls-IsTyped cs (on_call c m) rs (on_call-IsOk Declared c m r h)

  abbrev AreTyped : Threads Adjuster → Type 0
  AreTyped t = IsTyped t.feeder_thread

  with_adjuster-AreTyped :
      (a : Adjuster) (t : Threads Adjuster)
      → AreTyped t
      → AreTyped (with_adjuster (seat_pos_name_of o) a t)
  unfolding with_adjuster
  with_adjuster-AreTyped a t h =
      on_calls-IsTyped (callback_calls (seat_pos_name_of o) a.fed) t.feeder_thread
        (callback_calls-IsOk a.fed) h

  step_during-AreTyped :
      (e : Surroundings) (a : Adjuster) (t : Threads Adjuster)
      → AreTyped t
      → AreTyped (step_during (seat_pos_name_of o) e a t)
  unfolding step_during
  step_during-AreTyped e a t h =
      let name = seat_pos_name_of o in
      let d : Surroundings = record e { meanwhile = callback_calls name a.fed } in
      let u : Threads Adjuster = with_adjuster name a t in
      elim (Bool-cases (is_updating t.feeder_thread)) [
        | inl x ↦ rw x (step-IsOk Declared d t.feeder_thread (callback_calls-IsOk a.fed) h)
        | inr x ↦ rw x (
            step-IsOk Declared (record e { meanwhile = [] }) u.feeder_thread tt
              (with_adjuster-AreTyped a t h))
      ]

  module _ (exit_on_error : Bool) (p : Platform) where
    take_event-AreTyped :
        (e : SystemEvent) (a : Adjuster) (t : Threads Adjuster)
        → AreTyped t
        → AreTyped (take_event exit_on_error p (seat_pos_name_of o) e a t)
    take_event-AreTyped (feeder_steps e rs) a t h = step_during-AreTyped e a t h
    take_event-AreTyped (finishes code) a t h = h
    take_event-AreTyped (connects b) a t h = on_connection-IsOk Declared b t.feeder_thread h
    take_event-AreTyped subscriber_starts a t h = h
    take_event-AreTyped ends a t h =
        unfold shut_down in on_call-IsOk Declared shuts_down t.feeder_thread tt h
    take_event-AreTyped (reads rs) a t h = with_adjuster-AreTyped a t h
    take_event-AreTyped (requests arrivals seat) a t h = with_adjuster-AreTyped a t h
    take_event-AreTyped (component_requests arrivals l c b) a t h = with_adjuster-AreTyped a t h
    take_event-AreTyped (responds arrivals updates) a t h = with_adjuster-AreTyped a t h

    run_system-AreTyped :
        (es : List SystemEvent) (t : Threads Adjuster)
        → AreTyped t
        → AreTyped (run_system exit_on_error p (seat_pos_name_of o) es t)
    unfolding run_system on_system_event
    run_system-AreTyped [] t h = h
    run_system-AreTyped (e ∷ es) t h =
        run_system-AreTyped es (on_system_event exit_on_error p (seat_pos_name_of o) e t)
          (take_event-AreTyped e _ t h)

-- The service sends only values of the types that it registers: whatever happens from the start of the
-- threads on, in every call of UpdateDatapoints each id is the one of a configured name, and its value
-- is a failure or has the data type that the configuration gives this name, within the type's range.
pub service_types :
    (exit_on_error : Bool) (p : Platform) (a : Adjuster) (feed_cb : ℕ) (o : Options)
    (es : List SystemEvent)
    → All
        (IsTypedRequest o)
        (run_system exit_on_error p
          (seat_pos_name_of o)
          es
          (start_threads (wire a feed_cb o))).feeder_thread.feeder.updates
service_types exit_on_error p a feed_cb o es =
    (run_system-AreTyped o exit_on_error p es (start_threads (wire a feed_cb o))
      (metadata_of-types o, tt, tt)).2
