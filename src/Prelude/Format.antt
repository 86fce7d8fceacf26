-- ===== src/Prelude/Format.antt =====
-- Numbers and texts as printf writes them, each text as the list of its bytes.
use Prim.Native.Nat.{ℕ, zero, suc, ◌+◌, ◌-◌, ◌*◌, ◌/◌, ◌%◌, ◌≤◌, ◌<◌}
use Prim.Native.Char.{code}
use Prim.Native.String.{String}
use mathlib.Core.Bool.{true, false}
use mathlib.Core.List.{List, [], ◌∷◌, ◌++◌}
use native.Mathlib.Omega.{arith}
use kuksa_val_services.Prelude.Tests.{ltb, if◌then◌else◌}
use kuksa_val_services.Prelude.Lists.{length, replicate, length-append, length-replicate}
use kuksa_val_services.Prelude.Int.{ℤ, pos, negsuc}

abbrev pub codes : String → List ℕ
codes String.[] = []
codes (String.◌∷◌ c s) = code c ∷ codes s

-- The digits are 0..9 and A..F.
abbrev pub digit : ℕ → ℕ
digit n = if ltb n 10 then b'0' + n else 55 + n

-- The digits of a number; a number has at most as many digits as its value, or one.
unfoldable pub digits : ℕ → ℕ → ℕ → List ℕ
digits zero base n = digit n ∷ []
digits (suc fuel) base n = elim (ltb n base) [
  | true ↦ digit n ∷ []
  | false ↦ digits fuel base (n / base) ++ digit (n % base) ∷ []
]

abbrev pub pad_left : ℕ → ℕ → List ℕ → List ℕ
pad_left width c text = replicate (width - length text) c ++ text

abbrev pub pad_right : ℕ → List ℕ → List ℕ
pad_right width text = text ++ replicate (width - length text) b' '

-- %d, and %3d with the width 3.
abbrev pub decimal : ℤ → List ℕ
decimal (pos n) = digits n 10 n
decimal (negsuc n) = b'-' ∷ digits (suc n) 10 (suc n)

-- %02X and %03X.
abbrev pub hex : ℕ → ℕ → List ℕ
hex width n = pad_left width b'0' (digits n 16 n)

-- 16 to the power of k + 1.
abbrev pub sixteens : ℕ → ℕ
sixteens zero = 16
sixteens (suc k) = 16 * sixteens k

pub length-digits : (k fuel n : ℕ) → n < sixteens k → length (digits fuel 16 n) ≤ suc k
unfolding digits
length-digits k zero n h = omega arith
length-digits zero (suc fuel) n h = ground arith
length-digits (suc k) (suc fuel) n h = ground (
  arith,
  length-append {0} (digits fuel 16 (n / 16)) (digit (n % 16) ∷ []),
  length-digits k fuel (n / 16),
)

pub length-hex : (k width n : ℕ) → n < sixteens k → width ≤ suc k → length (hex width n) ≤ suc k
length-hex k width n h w = omega (
  arith,
  length-append {0} (replicate (width - length (digits n 16 n)) b'0') (digits n 16 n),
  length-replicate {0} {A = ℕ} (width - length (digits n 16 n)) b'0',
  length-digits k n n h,
)
