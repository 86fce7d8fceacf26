-- ===== src/System/Running.antt =====
-- From the start of the service on: the position that the data broker gets.
use mathlib.Core.Path.{subst}
use kuksa_val_services.Prelude.{
  ℤ, none, ℕ, pos, negsuc, ◌*◌, ◌≤◌, ◌≡◌, ◌≢◌, refl, sym, ap, ◌∙◌, inl, inr, Bool, true, List, [],
  String, some, arith,
}
use kuksa_val_services.Controller.Types.{Seat, Platform}
use kuksa_val_services.Controller.Lifecycle.{Environment, OpenCalls}
use kuksa_val_services.Controller.Sessions.{AllSucceed}
use kuksa_val_services.Controller.Invariant.{IsValid}
use kuksa_val_services.Adjuster.Impl.{Adjuster, get_seat_position, construct, subscribe_position}
use kuksa_val_services.Adjuster.Results.{IsInformed, get_seat_position-range}
use kuksa_val_services.Adjuster.Lifetime.{started, construct-ready}
use kuksa_val_services.Feeder.Datapoint.{uint32_value}
use kuksa_val_services.Feeder.State.{DatapointMetadata}
use kuksa_val_services.Feeder.Keeping.{IsKept}
use kuksa_val_services.DataFeeder.{position_datapoint}
use kuksa_val_services.Main.{Threads, Options, wire, seat_pos_name_of, metadata_of}
use kuksa_val_services.System.{SystemEvent, adjuster_of, run_system, start_threads}
use kuksa_val_services.Controller.Thread.{ReadResult}
use kuksa_val_services.Adjuster.Impl.{on_reads}
use kuksa_val_services.Adjuster.Telling.{IsTelling}
use kuksa_val_services.Controller.Commands.{get_position}
use kuksa_val_services.System.Starting.{on_reads-unheard, on_reads-IsValid, on_reads-subscribed}
use kuksa_val_services.System.Synced.{IsSynced, told_position, run_system-IsSynced}

-- The adjuster that was constructed from the options, after its reader thread has started, and has read
-- `early` before there is a callback.
abbrev pub early_adjuster :
    Bool → Platform → List ReadResult → ℕ → ℕ → Environment → OpenCalls → Options → Seat → Adjuster
early_adjuster exit_on_error p early self event_cb env o options s =
    on_reads exit_on_error p early
      (started (construct exit_on_error self event_cb env o options.can_if_name s))

-- Run for that adjuster, to which the data feeder subscribes then, up to the creation of the threads.
abbrev pub service :
    Bool
    → Platform
    → List ReadResult
    → ℕ
    → ℕ
    → ℕ
    → Environment
    → OpenCalls
    → Options
    → Seat
    → Threads Adjuster
service exit_on_error p early self event_cb feed_cb env o options s =
    start_threads
      (wire (early_adjuster exit_on_error p early self event_cb env o options s) feed_cb options)

module _ (exit_on_error : Bool) (p : Platform) (name : String) where
  wire-IsSynced :
      (a : Adjuster) (feed_cb : ℕ) (options : Options)
      → IsTelling exit_on_error (told_position a) (subscribe_position a (some feed_cb))
      → IsValid a.seat.ctx
      → a.fed ≡ []
      → IsSynced exit_on_error p name
          (metadata_of options)
          (told_position a)
          (start_threads (wire a feed_cb options))
  unfolding subscribe_position
  wire-IsSynced a feed_cb options i v e = record {
    telling = i;
    valid = v;
    passed_on = e;
    told = ((refl, tt), λ act. inl refl);
  }

  -- The adjuster's position is what its callback is told for it.
  position-told :
      (config : List DatapointMetadata) (unfed : ℤ) (t : Threads Adjuster)
      → IsSynced exit_on_error p name config unfed t
      → get_seat_position (adjuster_of t) ≡ told_position (adjuster_of t)
  unfolding get_seat_position get_position
  position-told config unfed t i = ground (arith, i.telling)

  -- Once the callback has been called, no position stands for no call.
  changed-IsSynced :
      (config : List DatapointMetadata) (unfed : ℤ) (t : Threads Adjuster)
      → IsSynced exit_on_error p name config unfed t
      → told_position (adjuster_of t) ≢ unfed
      → IsSynced exit_on_error p name config (negsuc 1) t
  changed-IsSynced config unfed t i changed = record {
    telling = i.telling;
    valid = i.valid;
    passed_on = i.passed_on;
    told = (i.told.0, λ a. elim (i.told.1 a) [ inl e ↦ absurd (changed e) | inr k ↦ inr k ]);
  }

  scaled : (n : ℕ) → n ≤ 100 → position_datapoint (pos n) ≡ uint32_value (n * 10)
  unfolding position_datapoint
  scaled n h = ground arith

  IsSynced-known :
      (config : List DatapointMetadata) (t : Threads Adjuster) (n : ℕ)
      → IsSynced exit_on_error p name config (negsuc 1) t
      → get_seat_position (adjuster_of t) ≡ pos n
      → t.feeder_thread.feeder.feeder_active ≡ true
      → (n ≤ 100) × IsKept name (uint32_value (n * 10)) config t.feeder_thread.feeder
  IsSynced-known config t n i g a =
      let c : Adjuster = adjuster_of t in
      let (r, low) = get_seat_position-range c i.valid in
      let n_is : told_position c ≡ pos n = ground (arith, r, low) in
      let small : n ≤ 100 = ground (arith, r, low) in
      elim (i.told.1 a) [
        | inl unknown ↦ absurd (ground (arith, n_is, unknown))
        | inr k ↦ (
          small,
          subst (λ d. IsKept name d config t.feeder_thread.feeder)
              (ap position_datapoint n_is ∙ scaled n small) k,
        )
      ]

construct-unheard :
    (exit_on_error : Bool) (self event_cb : ℕ) (env : Environment) (o : OpenCalls) (name : String)
    (s : Seat)
    → ((construct exit_on_error self event_cb env o name s).fed ≡ [])
      × ((construct exit_on_error self event_cb env o name s).cb ≡ none)
unfolding construct
construct-unheard exit_on_error self event_cb env o name s = ground arith

module _ (exit_on_error : Bool) (p : Platform) (early : List ReadResult) (self event_cb feed_cb : ℕ)
    (env : Environment) (o : OpenCalls) (options : Options) (s : Seat) where
  abbrev name : String
  name = seat_pos_name_of options

  abbrev built : Adjuster
  built = construct exit_on_error self event_cb env o options.can_if_name s

  abbrev early_one : Adjuster
  early_one = early_adjuster exit_on_error p early self event_cb env o options s

  abbrev start : Threads Adjuster
  start = service exit_on_error p early self event_cb feed_cb env o options s

  subscribed-IsTelling :
      IsInformed exit_on_error (subscribe_position (started built) (some feed_cb))
      → early_one.fed ≡ []
      → IsTelling exit_on_error
          (told_position early_one)
          (subscribe_position early_one (some feed_cb))
  subscribed-IsTelling i e =
      on_reads-subscribed exit_on_error p early (started built) feed_cb
        (unfold subscribe_position in ground (arith, i)) e

  service-IsSynced :
      AllSucceed o
      → self ≢ 0
      → s.outputs ≡ []
      → IsSynced exit_on_error p name
          (metadata_of options)
          (told_position (adjuster_of start))
          start
  unfolding subscribe_position
  service-IsSynced all h q =
      let (lives, opened, device, low, high, valid, informed) =
        construct-ready exit_on_error self event_cb feed_cb env o options.can_if_name s all h q in
      let (none_fed, no_cb) =
        construct-unheard exit_on_error self event_cb env o options.can_if_name s in
      let fed = on_reads-unheard exit_on_error p early (started built) no_cb none_fed in
      wire-IsSynced exit_on_error p name early_one feed_cb options
        (subscribed-IsTelling informed fed)
        (on_reads-IsValid exit_on_error p early (started built)
          (record { position = valid.position; target = valid.target }))
        fed

  -- After any events from the start on, and once the position has changed, it is in the feeder.
  changed_service-IsSynced :
      (es fs : List SystemEvent)
      → AllSucceed o
      → self ≢ 0
      → s.outputs ≡ []
      → let t = run_system exit_on_error p name es start in
        get_seat_position (adjuster_of t) ≢ get_seat_position (adjuster_of start)
        → IsSynced exit_on_error p name
            (metadata_of options)
            (negsuc 1)
            (run_system exit_on_error p name fs t)
  changed_service-IsSynced es fs all h q changed =
      let config = metadata_of options in
      let unfed : ℤ = told_position (adjuster_of start) in
      let t : Threads Adjuster = run_system exit_on_error p name es start in
      let i = service-IsSynced all h q in
      let j = run_system-IsSynced exit_on_error p name config unfed es start i in
      let differs : told_position (adjuster_of t) ≢ unfed = λ e. changed (
        position-told exit_on_error p name config unfed t j
        ∙ e
        ∙ sym (position-told exit_on_error p name config unfed start i)) in
      run_system-IsSynced exit_on_error p name config (negsuc 1) fs t
        (changed-IsSynced exit_on_error p name config unfed t j differs)

-- While the service runs, from its start with system calls that succeed on, whatever the reader thread has
-- read before the callback was set, and after any frames, requests, targets, steps of the feeder and states
-- of the connection: once GetSeatPosition has returned something else than when the callback was set, and
-- if it knows the position n now, this lies within 0..100, and while the feeder is active, the value n * 10
-- is stored under the seat's name; or the broker has accepted a request that holds it under the name's id,
-- if the name had one and no two names the same, no other value is stored under the name, and no later
-- request holds one, but for the configured initial value.
pub service_up_to_date :
    (exit_on_error : Bool) (p : Platform) (early : List ReadResult) (self event_cb feed_cb : ℕ)
    (env : Environment) (o : OpenCalls) (options : Options) (s : Seat) (es fs : List SystemEvent)
    (n : ℕ)
    → AllSucceed o
    → self ≢ 0
    → s.outputs ≡ []
    → let name = seat_pos_name_of options in
      let start = service exit_on_error p early self event_cb feed_cb env o options s in
      let changed = run_system exit_on_error p name es start in
      let t = run_system exit_on_error p name fs changed in
      get_seat_position (adjuster_of changed) ≢ get_seat_position (adjuster_of start)
      → get_seat_position (adjuster_of t) ≡ pos n
      → t.feeder_thread.feeder.feeder_active ≡ true
      → (n ≤ 100) × IsKept name (uint32_value (n * 10)) (metadata_of options) t.feeder_thread.feeder
service_up_to_date exit_on_error p early self event_cb feed_cb env o options s es fs n all h q c g
      a =
    IsSynced-known exit_on_error p (seat_pos_name_of options) (metadata_of options) _ n
      (changed_service-IsSynced exit_on_error p early self event_cb feed_cb env o options s es fs
        all h q c)
      g a
