-- ===== src/System/Feeding.antt =====
-- What the feeder holds of the positions that the adjuster's callback is told.
use mathlib.Core.Path.{subst}
use kuksa_val_services.Prelude.{
  ℕ, ℤ, ◌≡◌, refl, ap, ◌⊎◌, inl, inr, Bool, true, List, [], ◌∷◌, ◌++◌, String, some, arith,
  Bool-cases,
}
use kuksa_val_services.Prelude.Dict.{lookup, lookup-insert, String_eq}
use kuksa_val_services.Grpc.{StatusCode}
use kuksa_val_services.Adjuster.Telling.{last_fed}
use kuksa_val_services.Feeder.Datapoint.{Datapoint}
use kuksa_val_services.Feeder.State.{
  DatapointMetadata, Feeder, Call, feeds, call, calls, feed_value,
}
use kuksa_val_services.Feeder.Sending.{feed_stored_values}
use kuksa_val_services.Feeder.Merging.{feed_stored_values_safe}
use kuksa_val_services.Feeder.Keeping.{IsKept, dispatch-IsKept, run-IsKept-feeds, IsKept-Same}
use kuksa_val_services.Feeder.Keeps.{feed_round-Same}
use kuksa_val_services.Feeder.Names.{IsFor, call-IsFor, feed_stored_values-IsFor, step-IsFor}
use kuksa_val_services.Feeder.Stopping.{step-IsInactive}
use kuksa_val_services.Feeder.Run.{
  Phase, connecting, feeding, waiting, stopped, Machine, Surroundings, step, dispatch, on_call, run,
  feed_round, at,
}
use kuksa_val_services.DataFeeder.{position_datapoint}
use kuksa_val_services.System.{callback_calls, on_calls, is_updating, quiet_step}

-- `unfed` stands for no call of the callback.
module _ (name : String) (config : List DatapointMetadata) (unfed : ℤ) where
  -- Where the callback was last told a position, an active feeder has its datapoint stored or has sent it.
  abbrev pub IsTold : ℤ → Machine → Type 0
  IsTold z m =
      IsFor config m.feeder
      × (m.feeder.feeder_active ≡ true
          → (z ≡ unfed) ⊎ IsKept name (position_datapoint z) config m.feeder)

  on_calls-IsFor :
      (cs : List Call) (m : Machine) → IsFor config m.feeder → IsFor config (on_calls cs m).feeder
  unfolding on_call
  on_calls-IsFor [] m h = h
  on_calls-IsFor (c ∷ cs) m h = on_calls-IsFor cs (on_call c m) (call-IsFor config c m.feeder h)

  on_calls-append :
      (cs ds : List Call) (m : Machine) → on_calls (cs ++ ds) m ≡ on_calls ds (on_calls cs m)
  on_calls-append [] ds m = refl
  on_calls-append (c ∷ cs) ds m = on_calls-append cs ds (on_call c m)

  feeds-active :
      (v : Datapoint) (m : Machine)
      → (on_call (feeds name v) m).feeder.feeder_active ≡ m.feeder.feeder_active
  unfolding on_call call feed_value
  feeds-active v m = ground arith

  feeds-IsKept :
      (v : Datapoint) (m : Machine)
      → IsFor config m.feeder
      → m.feeder.feeder_active ≡ true
      → IsKept name v config (on_call (feeds name v) m).feeder
  unfolding run
  feeds-IsKept v m d a =
      subst (λ c. IsKept name v c (on_call (feeds name v) m).feeder) d.0
        (run-IsKept-feeds name v [] m a d.1 tt)

  -- The calls of the callback, one after the other.
  pub on_calls-IsTold :
      (fed : List (ℕ × ℤ)) (z y : ℤ) (m : Machine)
      → last_fed z fed ≡ y
      → IsTold z m
      → IsTold y (on_calls (callback_calls name fed) m)
  on_calls-IsTold [] z y m e h = subst (λ x. IsTold x m) e h
  on_calls-IsTold ((cb, x) ∷ older) z y m e h =
      let c : Call = feeds name (position_datapoint x) in
      let n : Machine = on_calls (callback_calls name older) m in
      let split = on_calls-append (callback_calls name older) (c ∷ []) m in
      let d = on_calls-IsFor (callback_calls name older) m h.0 in
      (
        on_calls-IsFor (callback_calls name ((cb, x) ∷ older)) m h.0,
        λ a. inr (
            subst
              (λ w.
                IsKept name (position_datapoint w) config
                  (on_calls (callback_calls name ((cb, x) ∷ older)) m).feeder)
              e
              (rw split (
                feeds-IsKept (position_datapoint x) n d (
                  ground (
                    arith,
                    ap (λ (w : Machine). w.feeder.feeder_active) split,
                    feeds-active (position_datapoint x) n,
                  ))))),
      )

  calls-append : (cs ds : List Call) (f : Feeder) → calls (cs ++ ds) f ≡ calls ds (calls cs f)
  unfolding calls
  calls-append [] ds f = refl
  calls-append (c ∷ cs) ds f = calls-append cs ds (call c f)

  callback_calls-active :
      (fed : List (ℕ × ℤ)) (f : Feeder)
      → (calls (callback_calls name fed) f).feeder_active ≡ f.feeder_active
  unfolding calls call feed_value
  callback_calls-active [] f = refl
  callback_calls-active ((cb, x) ∷ older) f = ground (
    arith,
    calls-append (callback_calls name older) (feeds name (position_datapoint x) ∷ []) f,
    callback_calls-active older f,
  )

  lookup-callback_calls :
      (cb : ℕ) (x : ℤ) (older : List (ℕ × ℤ)) (f : Feeder)
      → f.feeder_active ≡ true
      → lookup name (calls (callback_calls name ((cb, x) ∷ older)) f).stored_values
        ≡ some (position_datapoint x)
  unfolding calls call feed_value
  lookup-callback_calls cb x older f a =
      let v : Datapoint = position_datapoint x in
      let g : Feeder = calls (callback_calls name older) f in
      ground (
        arith,
        calls-append (callback_calls name older) (feeds name v ∷ []) f,
        callback_calls-active older f,
        lookup-insert name name v g.stored_values,
        String_eq.beq_iff name name,
      )

  -- A step with nothing fed meanwhile.
  pub quiet_step-IsTold :
      (e : Surroundings) (z : ℤ) (m : Machine) → IsTold z m → IsTold z (quiet_step e m)
  unfolding step
  quiet_step-IsTold e z m h =
      let d : Surroundings = record e { meanwhile = [] } in
      (
        step-IsFor config d m h.0,
        λ a. elim (Bool-cases m.feeder.feeder_active) [
          | inl b ↦ elim (h.1 b) [
            | inl c ↦ inl c
            | inr k ↦
                inr (dispatch-IsKept name (position_datapoint z) config d m.phase m.feeder tt k)
          ]
          | inr b ↦ absurd (ground (arith, step-IsInactive d m b))
        ],
      )

  feed_stored_values-newest :
      (reply : StatusCode) (b : Bool) (cb : ℕ) (x : ℤ) (older : List (ℕ × ℤ)) (f : Feeder)
      → f.feeder_active ≡ true
      → lookup name
          (feed_stored_values reply (callback_calls name ((cb, x) ∷ older)) b f).stored_values
        ≡ some (position_datapoint x)
  feed_stored_values-newest reply b cb x older f a =
      let cs : List Call = callback_calls name ((cb, x) ∷ older) in
      let (u, l) = feed_stored_values_safe reply cs b f name in
      let k = lookup-callback_calls cb x older (record f { stored_values = [] }) a in ground arith

  update-IsKept :
      (e : Surroundings) (b : Bool) (cb : ℕ) (x : ℤ) (older : List (ℕ × ℤ)) (f : Feeder)
      → IsFor config f
      → f.feeder_active ≡ true
      → IsKept name
          (position_datapoint x)
          config
          (feed_round (record e { meanwhile = callback_calls name ((cb, x) ∷ older) }) b f).feeder
  update-IsKept e b cb x older f c a =
      let d : Surroundings = record e { meanwhile = callback_calls name ((cb, x) ∷ older) } in
      IsKept-Same name (position_datapoint x) config
        (feed_stored_values e.update_status d.meanwhile b f) (feed_round d b f).feeder
        (feed_round-Same d b f)
        (inl (
          feed_stored_values-IsFor config e.update_status d.meanwhile b f c,
          feed_stored_values-newest e.update_status b cb x older f a,
        ))

  dispatch_update-IsKept :
      (e : Surroundings) (phase : Phase) (cb : ℕ) (x : ℤ) (older : List (ℕ × ℤ)) (f : Feeder)
      → IsFor config f
      → is_updating (at phase f) ≡ true
      → IsKept name
          (position_datapoint x)
          config
          (dispatch (record e { meanwhile = callback_calls name ((cb, x) ∷ older) }) phase f).feeder
  unfolding dispatch
  dispatch_update-IsKept e (feeding b) cb x older f c h =
      rw h (update-IsKept e b cb x older f c (ground arith))
  dispatch_update-IsKept e connecting cb x older f c h = absurd (ground arith)
  dispatch_update-IsKept e (waiting b) cb x older f c h = absurd (ground arith)
  dispatch_update-IsKept e stopped cb x older f c h = absurd (ground arith)

  -- A step in which values are sent, while the callback is called.
  pub update-IsTold :
      (e : Surroundings) (fed : List (ℕ × ℤ)) (z y : ℤ) (m : Machine)
      → last_fed z fed ≡ y
      → is_updating m ≡ true
      → IsTold z m
      → IsTold y (step (record e { meanwhile = callback_calls name fed }) m)
  unfolding step
  update-IsTold e [] z y m l u h =
      subst (λ x. IsTold x (quiet_step e m)) l (quiet_step-IsTold e z m h)
  update-IsTold e ((cb, x) ∷ older) z y m l u h =
      let d : Surroundings = record e { meanwhile = callback_calls name ((cb, x) ∷ older) } in
      let k = dispatch_update-IsKept e m.phase cb x older m.feeder h.0 u in
      (
        step-IsFor config d m h.0,
        λ a. inr (subst (λ w. IsKept name (position_datapoint w) config (step d m).feeder) l k),
      )
