-- ===== src/SvcClient/Waiting.antt =====
-- How the client's wait for a position ends.
use kuksa_val_services.Prelude.{
  ℕ, zero, suc, ◌+◌, ◌*◌, ◌<◌, ℤ, ltb, Bool, true, false, not, ◌≡◌, refl, Bool-cases, inl, inr,
  arith, if◌then◌else◌, ◌&&◌,
}
use kuksa_val_services.Grpc.{Status}
use kuksa_val_services.Service.{Position}
use kuksa_val_services.Feeder.State.{status_is_ok}
use kuksa_val_services.SvcClient.{
  Stub, Waited, reached, refused, timed_out, current_seat_position, wait_loop, is_hit,
  get_component_position, max_polls,
}

module _ {S : Type 0} (stub : Stub S) (component : ℕ) (row index target : ℤ) where
  abbrev pub poll : S → S × Position × Status
  poll s = current_seat_position stub s row index

  -- The reading is fine, and the position is not the target.
  abbrev pub misses : S → Bool
  misses s =
      let (t, position, status) = poll s in
      status_is_ok status.code && not (is_hit component target position)

  -- The state after `k` polls.
  abbrev pub after_polls : ℕ → S → S
  after_polls zero s = s
  after_polls (suc k) s = after_polls k (poll s).0

  -- The first `k` polls miss.
  abbrev pub AllMiss : ℕ → S → Type 0
  AllMiss zero s = Unit
  AllMiss (suc k) s = (misses s ≡ true) × AllMiss k (poll s).0

  -- The ways in which a wait of at most `left` polls ends.
  pub data Ended (left : ℕ) (s : S) (r : S × Waited) : Type 0 where
    hits :
        (k : ℕ)
        → k < left
        → AllMiss k s
        → (let (t, position, status) = poll (after_polls k s) in
            (status_is_ok status.code ≡ true)
            × (is_hit component target position ≡ true)
            × (r ≡ (t, reached (get_component_position component position))))
        → Ended left s r
    fails :
        (k : ℕ)
        → k < left
        → AllMiss k s
        → (let (t, position, status) = poll (after_polls k s) in
            (status_is_ok status.code ≡ false) × (r ≡ (t, refused status)))
        → Ended left s r
    late : AllMiss left s → r ≡ (after_polls left s, timed_out) → Ended left s r

  wait_loop_fails :
      (fuel retries : ℕ) (s : S)
      → status_is_ok (poll s).2.code ≡ false
      → wait_loop stub component row index target (suc fuel) retries s
        ≡ ((poll s).0, refused (poll s).2)
  unfolding wait_loop
  wait_loop_fails fuel retries s bad = rw bad refl

  pub wait_loop_hits :
      (fuel retries : ℕ) (s : S)
      → status_is_ok (poll s).2.code ≡ true
      → is_hit component target (poll s).1 ≡ true
      → wait_loop stub component row index target (suc fuel) retries s
        ≡ ((poll s).0, reached (get_component_position component (poll s).1))
  unfolding wait_loop
  wait_loop_hits fuel retries s good hit = ground arith

  pub wait_loop-misses :
      (fuel retries : ℕ) (s : S)
      → misses s ≡ true
      → wait_loop stub component row index target (suc fuel) retries s ≡ (
          if ltb 15000 ((retries + 1) * 100)
          then ((poll s).0, timed_out)
          else wait_loop stub component row index target fuel (retries + 1) (poll s).0)
  unfolding wait_loop
  wait_loop-misses fuel retries s miss = ground arith

  Ended-step :
      (left : ℕ) (s : S) (r : S × Waited)
      → misses s ≡ true
      → Ended left (poll s).0 r
      → Ended (suc left) s r
  Ended-step left s r miss (hits k lt all e) = hits (suc k) (omega arith) (miss, all) e
  Ended-step left s r miss (fails k lt all e) = fails (suc k) (omega arith) (miss, all) e
  Ended-step left s r miss (late all e) = late (miss, all) e

  data Poll (s : S) : Type 0 where
    refuses : status_is_ok (poll s).2.code ≡ false → Poll s
    arrives :
        status_is_ok (poll s).2.code ≡ true → is_hit component target (poll s).1 ≡ true → Poll s
    goes_on : misses s ≡ true → Poll s

  Poll-cases : (s : S) → Poll s
  Poll-cases s = elim (Bool-cases (status_is_ok (poll s).2.code)) [
    | inr bad ↦ refuses bad
    | inl good ↦ elim (Bool-cases (is_hit component target (poll s).1)) [
      | inl hit ↦ arrives good hit
      | inr miss ↦ goes_on (ground arith)
    ]
  ]

  -- A poll that does not miss ends the wait.
  Ended-misses :
      (fuel retries : ℕ) (s : S)
      → (misses s ≡ true
          → Ended (suc fuel) s (wait_loop stub component row index target (suc fuel) retries s))
      → Ended (suc fuel) s (wait_loop stub component row index target (suc fuel) retries s)
  Ended-misses fuel retries s next = elim (Poll-cases s) [
    | refuses bad ↦ fails 0 (omega arith) tt (bad, wait_loop_fails fuel retries s bad)
    | arrives good hit ↦ hits 0 (omega arith) tt (good, hit, wait_loop_hits fuel retries s good hit)
    | goes_on miss ↦ next miss
  ]

  wait_loop-Ended :
      (left retries : ℕ) (s : S)
      → left + retries ≡ 150
      → Ended (suc left) s (wait_loop stub component row index target (suc left) retries s)
  wait_loop-Ended zero retries s e =
      Ended-misses zero retries s
        (λ miss. late (miss, tt) (ground (arith, wait_loop-misses zero retries s miss)))
  wait_loop-Ended (suc left) retries s e = Ended-misses (suc left) retries s (λ miss.
      let rest = wait_loop-Ended left (retries + 1) (poll s).0 (omega arith) in
      let same : wait_loop stub component row index target (suc (suc left)) retries s
          ≡ wait_loop stub component row index target (suc left) (retries + 1) (poll s).0 =
        ground (arith, wait_loop-misses (suc left) retries s miss) in
      rw same (Ended-step (suc left) s _ miss rest))

  -- The wait of the client ends, after at most 151 polls. If the first polls miss the target and the next
  -- one hits it, it ends with the position that this poll gave; if the next one fails, it ends with its
  -- status; and if all of the 151 polls miss, it ends by the timeout.
  pub wait_loop_ends :
      (s : S) → Ended max_polls s (wait_loop stub component row index target max_polls 0 s)
  wait_loop_ends s = wait_loop-Ended 150 0 s refl
