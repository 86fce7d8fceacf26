-- ===== src/System/Informing.antt =====
-- From the frame on the bus to the data broker: the position under the id that the broker gave the name.
use mathlib.Core.Path.{subst}
use kuksa_val_services.Prelude.{
  refl, ℕ, pos, ◌*◌, ◌≤◌, ◌≡◌, ◌≢◌, ◌∙◌, ap, Bool, true, List, [], ◌∷◌, ◌++◌, String, none, some,
  arith, All, Option-cases, Bool-cases, inl, inr, ◌⊎◌,
}
use kuksa_val_services.Prelude.Dict.{lookup, String_eq, ℕ_eq}
use kuksa_val_services.Controller.Types.{Seat, Platform}
use kuksa_val_services.Controller.Lifecycle.{Environment, OpenCalls}
use kuksa_val_services.Controller.Sessions.{AllSucceed}
use kuksa_val_services.Adjuster.Impl.{Adjuster, get_seat_position}
use kuksa_val_services.Feeder.Datapoint.{Datapoint, uint32_value}
use kuksa_val_services.Feeder.State.{DatapointMetadata, Update, status_is_ok}
use kuksa_val_services.Feeder.Keeping.{IsSent, newest, older}
use kuksa_val_services.Feeder.Requests.{IdsDiffer}
use kuksa_val_services.Feeder.Registered.{IsNamed}
use kuksa_val_services.Feeder.Shared.{ConnectedKnown, known-IsNamed}
use kuksa_val_services.Controller.Thread.{ReadResult}
use kuksa_val_services.Feeder.Merging.{initial}
use kuksa_val_services.Feeder.Delivers.{AllGood}
use kuksa_val_services.Feeder.Run.{Machine}
use kuksa_val_services.Main.{
  Threads, Options, seat_pos_vss_3, seat_pos_vss_4, seat_pos_name_of, metadata_of,
}
use kuksa_val_services.System.{SystemEvent, adjuster_of, run_system, on_system_event}
use kuksa_val_services.System.History.{history, run-history}
use kuksa_val_services.System.Ending.{feeder_turns}
use kuksa_val_services.System.Running.{service}
use kuksa_val_services.System.Delivering.{service_delivers}

-- The broker has accepted a request that holds the value under the name's id, and each later request has
-- an id for the name, and holds nothing or the configured initial value under it.
abbrev pub HasGot : String → Datapoint → List DatapointMetadata → List Update → Type 0
HasGot name v config [] = ⊥
HasGot name v config (u ∷ us) =
    (id : ℕ) × (lookup name u.ids ≡ some id)
    × ((status_is_ok u.status ≡ true) × (lookup id u.datapoints ≡ some v)
        ⊎ ((lookup id u.datapoints ≡ none) ⊎ (lookup id u.datapoints ≡ initial config name))
          × HasGot name v config us)

-- No two names have the same id in a request.
abbrev pub DifferentIds : Update → Type 0
DifferentIds u = IdsDiffer u.ids

known_id : (name : String) (u : Update) → IsNamed name u → (id : ℕ) × (lookup name u.ids ≡ some id)
known_id name u n = elim (Option-cases (lookup name u.ids)) [
  | inl e ↦ absurd (n e)
  | inr (id, e) ↦ (id, e)
]

IsSent-HasGot :
    (name : String) (v : Datapoint) (config : List DatapointMetadata) (us : List Update)
    → IsSent name v config us
    → All (IsNamed name) us
    → All DifferentIds us
    → HasGot name v config us
IsSent-HasGot name v config [] s ns ds = elim s [ ]
IsSent-HasGot name v config (u ∷ us) (newest c good) (n, ns) (d, ds) =
    let (id, e) = known_id name u n in (id, e, inl (good, c d id e))
IsSent-HasGot name v config (u ∷ us) (older o r c s) (n, ns) (d, ds) =
    let (id, e) = known_id name u n in
    let holds = c d id e in
    let rest = IsSent-HasGot name v config us s ns ds in
    (id, e, inr (elim r [ inl z ↦ inl (holds ∙ z) | inr z ↦ inr (holds ∙ z) ], rest))

position_is_configured : (o : Options) → initial (metadata_of o) (seat_pos_name_of o) ≢ none
position_is_configured o = elim (Bool-cases o.vss_4) [
  | inl e ↦ rw e (λ n. ground (arith, String_eq.beq_iff seat_pos_vss_4 seat_pos_vss_4))
  | inr e ↦ rw e (λ n. ground (arith, String_eq.beq_iff seat_pos_vss_3 seat_pos_vss_3))
]

run_system-append :
    (exit_on_error : Bool) (p : Platform) (name : String) (es fs : List SystemEvent)
    (t : Threads Adjuster)
    → run_system exit_on_error p name (es ++ fs) t
      ≡ run_system exit_on_error p name fs (run_system exit_on_error p name es t)
unfolding run_system
run_system-append exit_on_error p name [] fs t = refl
run_system-append exit_on_error p name (e ∷ es) fs t =
    run_system-append exit_on_error p name es fs (on_system_event exit_on_error p name e t)

pub service_informs :
    (exit_on_error : Bool) (p : Platform) (early : List ReadResult) (self event_cb feed_cb : ℕ)
    (env : Environment) (o : OpenCalls) (options : Options) (s : Seat) (es fs gs : List SystemEvent)
    (n : ℕ)
    → AllSucceed o
    → self ≢ 0
    → s.outputs ≡ []
    → let name = seat_pos_name_of options in
      let start = service exit_on_error p early self event_cb feed_cb env o options s in
      let changed = run_system exit_on_error p name es start in
      let t = run_system exit_on_error p name fs changed in
      let updates = (run_system exit_on_error p name gs t).feeder_thread.feeder.updates in
      get_seat_position (adjuster_of changed) ≢ get_seat_position (adjuster_of start)
      → get_seat_position (adjuster_of t) ≡ pos n
      → t.feeder_thread.feeder.feeder_active ≡ true
      → AllGood name (uint32_value (n * 10)) (history exit_on_error p name gs t)
      → 3 ≤ feeder_turns gs
      → ConnectedKnown name
          (history exit_on_error p name (es ++ (fs ++ gs)) start)
          start.feeder_thread
      → All DifferentIds updates
      → HasGot name (uint32_value (n * 10)) (metadata_of options) updates
service_informs exit_on_error p early self event_cb feed_cb env o options s es fs gs n all h q c k a
      g turns known differ =
    let name : String = seat_pos_name_of options in
    let start : Threads Adjuster =
      service exit_on_error p early self event_cb feed_cb env o options s in
    let whole = history exit_on_error p name (es ++ (fs ++ gs)) start in
    let sent =
      service_delivers exit_on_error p early self event_cb feed_cb env o options s es fs gs n all h
        q c k a g turns in
    let same =
      run-history exit_on_error p name (es ++ (fs ++ gs)) start
      ∙ ap (λ (t : Threads Adjuster). t.feeder_thread)
          (run_system-append exit_on_error p name es (fs ++ gs) start
            ∙ run_system-append exit_on_error p name fs gs
                (run_system exit_on_error p name es start)) in
    let named =
      subst (λ (m : Machine). All (IsNamed name) m.feeder.updates) same
        (known-IsNamed name (metadata_of options) (position_is_configured options) whole known) in
    IsSent-HasGot name (uint32_value (n * 10)) (metadata_of options) _ sent named differ
