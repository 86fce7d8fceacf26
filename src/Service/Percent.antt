-- ===== src/Service/Percent.antt =====
-- The scales of the seat's position: percent for the ECU, and 0..1000 for the services.
use kuksa_val_services.Prelude.{ℕ, pos, ◌≡◌, ◌≤◌, ◌+◌, ◌*◌, ◌/◌, arith}
use kuksa_val_services.Service.{base_percent, times_ten}

-- Rounding is to the nearest percent, within 0..100.
pub record IsNearest (b n : ℕ) : Type 0 where
  pub bounded : n ≤ 100
  pub not_above : n * 10 ≤ b + 5
  pub not_below : b ≤ n * 10 + 4

pub base_percent-IsNearest : (b : ℕ) → b ≤ 1000 → IsNearest b ((b + 5) / 10)
base_percent-IsNearest b h = omega arith

pub base_percent-times_ten : (n : ℕ) → base_percent (times_ten (pos n)) ≡ pos n
base_percent-times_ten n = ground arith
