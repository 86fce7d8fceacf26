-- ===== src/Programs/Feeding.antt =====
-- Which values the example program feeds, and for which steps.
use kuksa_val_services.Prelude.{
  ℕ, zero, suc, ℤ, pos, ◌+◌, ◌*◌, ◌/◌, ◌≤◌, ◌<◌, ◌≡◌, refl, List, [], ◌∷◌, none, some, arith,
}
use native.Mathlib.Nat.{mod-add-div', mod-lt, suc-mul, div-le_self}
use kuksa_val_services.Programs.BrokerFeeder.{loop_values}

-- The multiples of a step from i on, of which there are n.
abbrev pub multiples : ℕ → ℕ → ℕ → List ℤ
multiples zero step i = []
multiples (suc n) step i = pos i ∷ multiples n step (i + step)

loop_values-multiples :
    (n fuel k i : ℕ)
    → n < fuel
    → 1000 < i + n * k
    → i + n * k ≤ 1000 + k
    → loop_values fuel (pos k) (pos i) ≡ some (multiples n k i)
unfolding loop_values
loop_values-multiples n zero k i f a b = absurd (omega arith)
loop_values-multiples zero (suc fuel) k i f a b = ground arith
loop_values-multiples (suc n) (suc fuel) k i f a b =
    ground (arith, loop_values-multiples n fuel k (i + k) (omega arith) (omega arith) (omega arith))

-- For a step from 1 on the loop ends, within 1002 rounds: it feeds the multiples of the step up to 1000.
pub loop_values_ends :
    (k : ℕ) → 1 ≤ k → loop_values 1002 (pos k) (pos 0) ≡ some (multiples (suc (1000 / k)) k 0)
loop_values_ends k h =
    let whole = mod-add-div' 1000 k in
    let rest = mod-lt 1000 {m = k} h in
    let split = suc-mul (1000 / k) k in
    let few = div-le_self 1000 k in
    loop_values-multiples (suc (1000 / k)) 1002 k 0 (omega arith) (omega arith) (omega arith)

-- A step of 0 never ends the loop.
pub loop_values_stuck : (fuel : ℕ) → loop_values fuel (pos 0) (pos 0) ≡ none
unfolding loop_values
loop_values_stuck zero = refl
loop_values_stuck (suc fuel) = ground (arith, loop_values_stuck fuel)
