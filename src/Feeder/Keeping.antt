-- ===== src/Feeder/Keeping.antt =====
-- A value that is fed is kept until it is sent.
use kuksa_val_services.Prelude.{
  ℕ, Option, ◌∙◌, Bool, true, List, [], ◌∷◌, ◌≡◌, ◌≢◌, ◌⊎◌, inl, inr, refl, String, none, some,
  arith, Bool-cases,
}
use kuksa_val_services.Prelude.Dict.{
  lookup, lookup-insert, lookup-insert_all_absent, String_eq, ℕ_eq,
}
use kuksa_val_services.Grpc.{StatusCode}
use kuksa_val_services.Feeder.Datapoint.{Datapoint}
use kuksa_val_services.Feeder.State.{
  DatapointMetadata, Feeder, Update, Call, feeds, feeds_all, shuts_down, call, calls, status_is_ok,
  feed_value,
}
use kuksa_val_services.Feeder.Sending.{feed_stored_values, values_to_feed, build_request}
use kuksa_val_services.Feeder.Merging.{
  initial, feed_stored_values_safe, lookup-values_to_feed, call-parts,
}
use kuksa_val_services.Feeder.Keeps.{Same, dispatch-keeps}
use kuksa_val_services.Feeder.Requests.{IdsDiffer, request_holds}
use kuksa_val_services.Feeder.Names.{
  HasNames, IsFor, call-IsFor, feed_stored_values-IsFor, values_to_feed-HasDistinctKeys,
}
use kuksa_val_services.Feeder.Run.{
  Phase, Machine, Surroundings, step, dispatch, Event, steps, calls_in, connection, on_event,
  on_call, on_connection, run,
}

-- What a request holds for a name, if no two names have the same id.
abbrev pub Carries : String → Option Datapoint → Update → Type 0
Carries name o u =
    IdsDiffer u.ids → (id : ℕ) → lookup name u.ids ≡ some id → lookup id u.datapoints ≡ o

request-Carries :
    (reply : StatusCode) (b : Bool) (f : Feeder)
    → HasNames f
    → (name : String)
    → Carries name (lookup name (values_to_feed b f)) (record {
      ids = f.id_map;
      datapoints = build_request f.id_map (values_to_feed b f) [];
      status = reply;
    })
request-Carries reply b f d name i id l =
    request_holds f.id_map (values_to_feed b f) i (values_to_feed-HasDistinctKeys b f d) name id l

module _ (name : String) (value : Datapoint) where
  -- A call that neither feeds the name nor shuts the feeder down.
  abbrev pub IsElsewhere : Call → Type 0
  IsElsewhere (feeds other v) = other ≢ name
  IsElsewhere (feeds_all values) = lookup name values ≡ none
  IsElsewhere shuts_down = ⊥

  abbrev pub AllElsewhere : List Call → Type 0
  AllElsewhere [] = Unit
  AllElsewhere (c ∷ cs) = IsElsewhere c × AllElsewhere cs

  -- Events in which nobody feeds the name or shuts the feeder down.
  abbrev pub NoneNewer : List Event → Type 0
  NoneNewer [] = Unit
  NoneNewer (steps e ∷ es) = AllElsewhere e.meanwhile × NoneNewer es
  NoneNewer (calls_in c ∷ es) = IsElsewhere c × NoneNewer es
  NoneNewer (connection b ∷ es) = NoneNewer es

  pub call-lookup :
      (c : Call) (f : Feeder)
      → IsElsewhere c
      → lookup name (call c f).stored_values ≡ lookup name f.stored_values
  unfolding call
  call-lookup (feeds other v) f h =
      ground (arith, h, lookup-insert other name v f.stored_values, String_eq.beq_iff other name)
  call-lookup (feeds_all values) f h =
      ground (arith, lookup-insert_all_absent values f.stored_values name h)
  call-lookup shuts_down f h = absurd h

  calls-lookup :
      (cs : List Call) (f : Feeder)
      → AllElsewhere cs
      → lookup name (calls cs f).stored_values ≡ lookup name f.stored_values
  unfolding calls
  calls-lookup [] f h = refl
  calls-lookup (c ∷ cs) f (h, hs) = ground (arith, call-lookup c f h, calls-lookup cs (call c f) hs)

  module _ (config : List DatapointMetadata) where
    -- What a name has where nothing is fed: no value, or the configured initial value.
    abbrev pub IsRest : Option Datapoint → Type 0
    IsRest o = (o ≡ none) ⊎ (o ≡ initial config name)

    -- The broker has accepted a request that carries the value, and no later request carries another value
    -- for the name, but for its configured initial value.
    pub data IsSent : List Update → Type 0 where
      newest :
          {u : Update} {us : List Update}
          → Carries name (some value) u
          → status_is_ok u.status ≡ true
          → IsSent (u ∷ us)
      older :
          {u : Update} {us : List Update} (o : Option Datapoint)
          → IsRest o
          → Carries name o u
          → IsSent us
          → IsSent (u ∷ us)

    -- Sent, and nothing newer is stored.
    abbrev pub IsOut : Feeder → Type 0
    IsOut f = IsFor config f × IsRest (lookup name f.stored_values) × IsSent f.updates

    abbrev pub IsStored : Feeder → Type 0
    IsStored f = IsFor config f × (lookup name f.stored_values ≡ some value)

    abbrev pub IsKept : Feeder → Type 0
    IsKept f = IsStored f ⊎ IsOut f

    IsOut-Same : (f g : Feeder) → Same g f → IsOut f → IsOut g
    IsOut-Same f g (s, u, d) k = rw (s, u, d) k

    pub IsKept-Same : (f g : Feeder) → Same g f → IsKept f → IsKept g
    IsKept-Same f g (s, u, d) k = rw (s, u, d) k

    pub call-IsOut : (c : Call) (f : Feeder) → IsElsewhere c → IsOut f → IsOut (call c f)
    call-IsOut c f h (d, r, s) =
        (call-IsFor config c f d, rw (call-lookup c f h) r, rw (call-parts c f).0 s)

    pub call-IsKept : (c : Call) (f : Feeder) → IsElsewhere c → IsKept f → IsKept (call c f)
    call-IsKept c f h (inl (d, l)) = inl (call-IsFor config c f d, call-lookup c f h ∙ l)
    call-IsKept c f h (inr o) = inr (call-IsOut c f h o)

    -- What is handed over where nothing new is stored.
    values_to_feed-IsRest :
        (b : Bool) (f : Feeder)
        → f.dp_config ≡ config
        → IsRest (lookup name f.stored_values)
        → IsRest (lookup name (values_to_feed b f))
    values_to_feed-IsRest b f d r = ground (arith, lookup-values_to_feed b f name)

    module _ (reply : StatusCode) (cs : List Call) (b : Bool) (f : Feeder)
        (h : AllElsewhere cs) where
      nothing_fed : lookup name (calls cs (record f { stored_values = [] })).stored_values ≡ none
      unfolding lookup
      nothing_fed = calls-lookup cs (record f { stored_values = [] }) h

      feed_stored_values-IsRest :
          (status_is_ok reply ≡ true) ⊎ IsRest (lookup name (values_to_feed b f))
          → IsRest (lookup name (feed_stored_values reply cs b f).stored_values)
      feed_stored_values-IsRest r =
          ground (arith, feed_stored_values_safe reply cs b f name, nothing_fed)

      pub feed_stored_values-IsOut : IsOut f → IsOut (feed_stored_values reply cs b f)
      feed_stored_values-IsOut (d, r, s) =
          let v = values_to_feed-IsRest b f d.0 r in
          let u = (feed_stored_values_safe reply cs b f name).0 in
          (
            feed_stored_values-IsFor config reply cs b f d,
            feed_stored_values-IsRest (inr v),
            rw u
                (older (lookup name (values_to_feed b f)) v (request-Carries reply b f d.1 name) s),
          )

      pub feed_stored_values-sends :
          status_is_ok reply ≡ true → IsStored f → IsOut (feed_stored_values reply cs b f)
      feed_stored_values-sends good (d, e) =
          let u = (feed_stored_values_safe reply cs b f name).0 in
          let handed : lookup name (values_to_feed b f) ≡ some value =
            ground (arith, lookup-values_to_feed b f name) in
          (
            feed_stored_values-IsFor config reply cs b f d,
            feed_stored_values-IsRest (inl good),
            rw u (newest (λ i id l. request-Carries reply b f d.1 name i id l ∙ handed) good),
          )

      feed_stored_values-IsKept : IsKept f → IsKept (feed_stored_values reply cs b f)
      feed_stored_values-IsKept (inr o) = inr (feed_stored_values-IsOut o)
      feed_stored_values-IsKept (inl (d, e)) = elim (Bool-cases (status_is_ok reply)) [
        | inl good ↦ inr (feed_stored_values-sends good (d, e))
        | inr bad ↦ inl (
          feed_stored_values-IsFor config reply cs b f d,
          ground (
            arith,
            feed_stored_values_safe reply cs b f name,
            lookup-values_to_feed b f name,
            nothing_fed,
          ),
        )
      ]

    pub step-IsOut :
        (e : Surroundings) (m : Machine)
        → AllElsewhere e.meanwhile
        → IsOut m.feeder
        → IsOut (step e m).feeder
    unfolding step
    step-IsOut e m h o =
        dispatch-keeps IsOut IsOut-Same e
          (λ b g k. feed_stored_values-IsOut e.update_status e.meanwhile b g h k) m.phase m.feeder o

    pub dispatch-IsKept :
        (e : Surroundings) (phase : Phase) (f : Feeder)
        → AllElsewhere e.meanwhile
        → IsKept f
        → IsKept (dispatch e phase f).feeder
    dispatch-IsKept e phase f h k =
        dispatch-keeps IsKept IsKept-Same e
          (λ b g k. feed_stored_values-IsKept e.update_status e.meanwhile b g h k) phase f k

    run-IsKept :
        (es : List Event) (m : Machine) → NoneNewer es → IsKept m.feeder → IsKept (run es m).feeder
    unfolding run on_event on_call on_connection step
    run-IsKept [] m h k = k
    run-IsKept (steps e ∷ es) m (h, hs) k =
        run-IsKept es (step e m) hs (dispatch-IsKept e m.phase m.feeder h k)
    run-IsKept (calls_in c ∷ es) m (h, hs) k =
        run-IsKept es (on_call c m) hs (call-IsKept c m.feeder h k)
    run-IsKept (connection b ∷ es) m h k = run-IsKept es (on_connection b m) h k

-- A value that is fed to an active feeder, which stores one value for each name, is not lost: whatever the
-- feeder's thread, the broker and other threads do then, as long as nobody feeds the same name or calls
-- Shutdown, the value is still stored; or the broker has accepted a request that holds it under the name's
-- id, if the name had an id and no two names the same one, no other value for the name is stored, and no
-- later request holds one, but for the configured initial value.
pub run-IsKept-feeds :
    (name : String) (value : Datapoint) (es : List Event) (m : Machine)
    → m.feeder.feeder_active ≡ true
    → HasNames m.feeder
    → NoneNewer name value es
    → IsKept name value m.feeder.dp_config (run es (on_call (feeds name value) m)).feeder
unfolding on_call call feed_value
run-IsKept-feeds name value es m a d h =
    let c : Feeder = call (feeds name value) m.feeder in
    run-IsKept name value m.feeder.dp_config es (on_call (feeds name value) m) h (
      inl (
        call-IsFor m.feeder.dp_config (feeds name value) m.feeder (refl, d),
        ground (
          arith,
          lookup-insert name name value m.feeder.stored_values,
          String_eq.beq_iff name name,
        ),
      ))
