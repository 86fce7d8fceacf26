-- ===== src/Subscriber/Attempts.antt =====
-- The loop of Run over its passes (seat_position_subscriber.cc:46-141).
use kuksa_val_services.Prelude.{
  ℕ, Bool, leb, All, ◌≢◌, ◌&&◌, if◌then◌else◌, ◌+◌, ◌≤◌, ◌≡◌, ◌⊎◌, refl, inl, inr, true, false,
  List, [], ◌∷◌, arith, Bool-cases,
}
use kuksa_val_services.Grpc.{StatusCode}
use kuksa_val_services.Adjuster.Interface.{SeatAdjuster}
use kuksa_val_services.Subscriber.{
  Attempt, Subscriber, shutdown, run_start, after_finish, attempt, run_loop,
}

abbrev pub is_not_found : StatusCode → Bool
is_not_found StatusCode.not_found = true
is_not_found _ = false

abbrev pub is_miss : Attempt → ℕ
is_miss a = if a.connects && is_not_found a.finish then 1 else 0

-- The passes that are connected and finish with NOT_FOUND.
abbrev pub misses : List Attempt → ℕ
misses [] = 0
misses (a ∷ rest) = is_miss a + misses rest

abbrev pub HasNoOk : Attempt → Type 0
HasNoOk a = a.finish ≢ StatusCode.ok

module _ {S : Type 0} (adjuster : SeatAdjuster S) where
  -- The subscriber runs with at most three failures, or has stopped.
  abbrev pub IsTrying : Subscriber S → Type 0
  IsTrying s = (s.running ≡ false) ⊎ (s.failures ≤ 3)

  attempt-IsTrying :
      (a : Attempt) (s : Subscriber S)
      → s.running ≡ true
      → IsTrying s
      → IsTrying (attempt adjuster a s)
  unfolding attempt after_finish
  attempt-IsTrying a s runs trying = ground arith

  pub run_loop_stopped :
      (rest : List Attempt) (s : Subscriber S) → s.running ≡ false → run_loop adjuster rest s ≡ s
  unfolding run_loop
  run_loop_stopped [] s stopped = refl
  run_loop_stopped (a ∷ rest) s stopped = ground arith

  run_loop-IsTrying' :
      (passes : List Attempt) (s : Subscriber S)
      → IsTrying s
      → IsTrying (run_loop adjuster passes s)
  unfolding run_loop
  run_loop-IsTrying' [] s trying = trying
  run_loop-IsTrying' (a ∷ rest) s trying = elim (Bool-cases s.running) [
    | inl runs ↦
        let next =
          run_loop-IsTrying' rest (attempt adjuster a s) (attempt-IsTrying a s runs trying) in
        ground arith
    | inr stopped ↦ let same = run_loop_stopped (a ∷ rest) s stopped in ground arith
  ]

  -- From the start of Run, whatever the passes bring, the subscriber that still runs has counted at most
  -- three failures.
  pub run_loop-IsTrying :
      (passes : List Attempt) (s : Subscriber S) → IsTrying (run_loop adjuster passes (run_start s))
  unfolding run_start
  run_loop-IsTrying passes s = run_loop-IsTrying' passes (run_start s) (ground arith)

  run_loop-misses :
      (passes : List Attempt) (s : Subscriber S)
      → All HasNoOk passes
      → s.running ≡ true
      → s.failures ≤ 3
      → (run_loop adjuster passes s).running ≡ leb (s.failures + misses passes) 3
  unfolding run_loop attempt after_finish
  run_loop-misses [] s never r h = ground arith
  run_loop-misses (a ∷ rest) s never r h =
      let t : Subscriber S = attempt adjuster a s in
      ground (arith, never.0, run_loop-misses rest t never.1, run_loop_stopped rest t)

  -- With passes none of which finishes with OK, Run goes on exactly while at most three of the connected
  -- ones have failed with NOT_FOUND.
  pub run_loop_gives_up :
      (passes : List Attempt) (s : Subscriber S)
      → All HasNoOk passes
      → (run_loop adjuster passes (run_start s)).running ≡ leb (misses passes) 3
  unfolding run_start
  run_loop_gives_up passes s never =
      ground (arith, run_loop-misses passes (run_start s) never refl (omega arith))

  -- A Shutdown that comes before the first statement of Run is lost: Run behaves as without it.
  pub shutdown-run_start :
      (passes : List Attempt) (s : Subscriber S)
      → run_loop adjuster passes (run_start (shutdown s)) ≡ run_loop adjuster passes (run_start s)
  unfolding run_start shutdown
  shutdown-run_start passes s = refl
