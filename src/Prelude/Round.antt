-- ===== src/Prelude/Round.antt =====
-- Rounding to the nearest integer, as Python's `round` does on exact numbers.
use Prim.Native.Nat.{ℕ, zero, suc, ◌+◌, ◌*◌, ◌/◌, ◌%◌}
use mathlib.Core.Bool.{Bool, ◌&&◌, ◌||◌}
use tasker_api.Prelude.Tests.{ltb, ◌==◌, if◌then◌else◌}
use tasker_api.Prelude.Int.{ℤ, pos, negsuc}

-- n / d rounded to the nearest integer, a tie to the even one, as `round` does.
abbrev round_up : ℕ → ℕ → ℕ → Bool
round_up q r d = ltb d (2 * r) || (2 * r == d && q % 2 == 1)

abbrev pub round_ℕ : ℕ → ℕ → ℕ
round_ℕ n d = n / d + (if round_up (n / d) (n % d) d then 1 else 0)

abbrev pub neg_ℕ : ℕ → ℤ
neg_ℕ zero = pos 0
neg_ℕ (suc n) = negsuc n

abbrev pub round_ℤ : ℤ → ℕ → ℤ
round_ℤ (pos n) d = pos (round_ℕ n d)
round_ℤ (negsuc n) d = neg_ℕ (round_ℕ (suc n) d)

abbrev pub times : ℕ → ℤ → ℤ
times k (pos n) = pos (k * n)
times k (negsuc n) = neg_ℕ (k * suc n)

-- The product of two integers.
abbrev pub times_ℤ : ℤ → ℤ → ℤ
times_ℤ (pos k) b = times k b
times_ℤ (negsuc k) (pos n) = neg_ℕ (suc k * n)
times_ℤ (negsuc k) (negsuc n) = pos (suc k * suc n)
