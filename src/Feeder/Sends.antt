-- ===== src/Feeder/Sends.antt =====
-- A value that is fed reaches a broker that answers.
use mathlib.Core.Path.{subst}
use kuksa_val_services.Prelude.{
  sym, ◌∙◌, ℕ, ◌<◌, Bool, true, false, List, [], ◌∷◌, ◌≡◌, ◌⊎◌, inl, inr, refl, String, arith,
  if◌then◌else◌, Bool-cases,
}
use kuksa_val_services.Prelude.Dict.{lookup, String_eq}
use kuksa_val_services.Grpc.{StatusCode}
use kuksa_val_services.Feeder.Datapoint.{Datapoint}
use kuksa_val_services.Feeder.State.{
  DatapointMetadata, Feeder, Call, feeds, feeds_all, shuts_down, call, calls, feed_value,
  feed_values, cleanup, status_is_ok,
}
use kuksa_val_services.Feeder.Sending.{feed_stored_values, feed_to_broker}
use kuksa_val_services.Feeder.Keeps.{Same, connect-Same, feed_round-Same}
use kuksa_val_services.Feeder.Keeping.{
  IsElsewhere, AllElsewhere, IsOut, IsStored, feed_stored_values-sends,
}
use kuksa_val_services.Feeder.Progress.{IsAwake, IsGood, connect_good, due}
use kuksa_val_services.Feeder.Run.{
  Phase, connecting, feeding, waiting, stopped, Machine, Surroundings, dispatch, connect, at,
  feed_round, wait_round, end_round,
}

module _ (name : String) (value : Datapoint) (config : List DatapointMetadata) where
  abbrev IsGone : Feeder → Type 0
  IsGone f = IsOut name value config f

  pub call_flags :
      (c : Call) (f : Feeder)
      → IsElsewhere name value c
      → ((call c f).feeder_active ≡ f.feeder_active) × ((call c f).connected ≡ f.connected)
  unfolding call feed_value feed_values
  call_flags (feeds other v) f h = ground arith
  call_flags (feeds_all values) f h = ground arith
  call_flags shuts_down f h = absurd h

  calls_flags :
      (cs : List Call) (f : Feeder)
      → AllElsewhere name value cs
      → ((calls cs f).feeder_active ≡ f.feeder_active) × ((calls cs f).connected ≡ f.connected)
  unfolding calls
  calls_flags [] f h = (refl, refl)
  calls_flags (c ∷ cs) f (h, hs) = ground (arith, call_flags c f h, calls_flags cs (call c f) hs)

  -- Sending to a broker that accepts leaves the feeder active and connected.
  feed_good :
      (reply : StatusCode) (cs : List Call) (b : Bool) (f : Feeder)
      → status_is_ok reply ≡ true
      → AllElsewhere name value cs
      → let g = feed_stored_values reply cs b f in
        (g.feeder_active ≡ f.feeder_active) × (g.connected ≡ f.connected)
  unfolding feed_stored_values feed_to_broker
  feed_good reply cs b f r h = ground (arith, calls_flags cs (record f { stored_values = [] }) h)

  feed_round_good :
      (e : Surroundings) (b : Bool) (f : Feeder)
      → IsGood e
      → AllElsewhere name value e.meanwhile
      → f.feeder_active ≡ true
      → f.connected ≡ true
      → IsStored name value config f
      → ((feed_round e b f).feeder.feeder_active ≡ true) × IsGone (feed_round e b f).feeder
  unfolding feed_round end_round
  feed_round_good e b f g h a c l =
      let flags = feed_good e.update_status e.meanwhile b f g.takes h in
      let out =
        feed_stored_values-sends name value config e.update_status e.meanwhile b f h g.takes l in
      (ground (arith, flags), (let (s, u, d) = feed_round-Same e b f in rw (s, u, d) out))

  -- One step: the value is sent, or it is still stored and nearer to it.
  abbrev pub IsNearer : ℕ → Machine → Type 0
  IsNearer n m =
      (m.feeder.feeder_active ≡ true)
      × (IsGone m.feeder
          ⊎ (IsStored name value config m.feeder × (due m.phase m.feeder.connected < n)))

  -- Where a step leads that sends nothing: the value stays stored.
  still_stored :
      (n : ℕ) (f : Feeder) (m : Machine)
      → Same m.feeder f
      → IsStored name value config f
      → m.feeder.feeder_active ≡ true
      → due m.phase m.feeder.connected < n
      → IsNearer n m
  still_stored n f m (s, u, c) l a d = (a, inr (rw (s, c) l, d))

  IsNearer-same : (n : ℕ) (m o : Machine) → m ≡ o → IsNearer n o → IsNearer n m
  IsNearer-same n m o e h = subst (λ x. IsNearer n x) (sym e) h

  lost_connection :
      (n : ℕ) (f : Feeder)
      → IsStored name value config f
      → f.feeder_active ≡ true
      → 2 < n
      → IsNearer n (at connecting (cleanup f))
  unfolding cleanup
  lost_connection n f l a h = still_stored n f (at connecting (cleanup f)) (refl, refl, refl) l a h

  woken_good :
      (e : Surroundings) (b : Bool) (f : Feeder)
      → IsAwake (at (waiting b) f)
      → f.feeder_active ≡ true
      → IsStored name value config f
      → dispatch e (waiting b) f
        ≡ (if f.connected then at (feeding false) f else at connecting (cleanup f))
  unfolding dispatch wait_round end_round lookup
  woken_good e true f w a (c, l) = ground arith
  woken_good e false f w a (c, l) = absurd (ground (arith, w.0 refl))

  pub dispatch_good :
      (e : Surroundings) (phase : Phase) (f : Feeder)
      → IsGood e
      → AllElsewhere name value e.meanwhile
      → IsAwake (at phase f)
      → f.feeder_active ≡ true
      → IsStored name value config f
      → IsNearer (due phase f.connected) (dispatch e phase f)
  dispatch_good e connecting f g h w a l =
      let (phase_is, act, con) = connect_good e f g a in
      IsNearer-same 2 (dispatch e connecting f) (connect e f) (unfold dispatch in ground arith)
        (still_stored 2 f (connect e f) (connect-Same e f) l act (rw (phase_is, con) (omega arith)))
  dispatch_good e (feeding b) f g h w a l = elim (Bool-cases f.connected) [
    | inl c ↦
        let (act, out) = feed_round_good e b f g h a c l in
        IsNearer-same _ (dispatch e (feeding b) f) (feed_round e b f)
          (unfold dispatch in ground arith) (act, inl out)
    | inr c ↦
        IsNearer-same _ (dispatch e (feeding b) f) (at connecting (cleanup f))
          (unfold dispatch in ground arith) (lost_connection _ f l a (rw c (omega arith)))
  ]
  dispatch_good e (waiting b) f g h w a l = elim (Bool-cases f.connected) [
    | inl c ↦
        IsNearer-same _ (dispatch e (waiting b) f) (at (feeding false) f)
          (woken_good e b f w a l ∙ rw c refl)
          (still_stored _ f (at (feeding false) f) (refl, refl, refl) l a (rw c (omega arith)))
    | inr c ↦
        IsNearer-same _ (dispatch e (waiting b) f) (at connecting (cleanup f))
          (woken_good e b f w a l ∙ rw c refl) (lost_connection _ f l a (rw c (omega arith)))
  ]
  dispatch_good e stopped f g h w a l = absurd (ground (arith, w.1 refl))
