-- ===== src/Transfers/Delay.antt =====
-- The retry delay of transfer_service.py, in microseconds.
use native.Mathlib.Nat.{pow-suc}
use tasker_api.Prelude.{ℕ, zero, suc, ◌+◌, ◌*◌, ◌/◌, ◌^◌, ◌≤◌, ◌<◌, min, ◌≡◌, arith}

abbrev pub seconds : ℕ → ℕ
seconds n = n * 1000000

-- `BASE_DELAY_SECONDS`
abbrev pub base_delay : ℕ
base_delay = 30 * 1000000

-- `MAX_DELAY_SECONDS`
abbrev pub max_delay : ℕ
max_delay = 7200 * 1000000

-- `min(MAX_DELAY_SECONDS, BASE_DELAY_SECONDS * 2 ** (attempt_count - 1))`; Python's `2 ** -1` is
-- a half.
unfoldable pub backoff : ℕ → ℕ
backoff zero = base_delay / 2
backoff (suc n) = min max_delay (base_delay * 2 ^ n)

-- `_calculate_retry_delay`; the jitter is drawn from the first fifth of the delay.
unfoldable pub calculate_retry_delay : (ℕ → ℕ) → ℕ → ℕ
calculate_retry_delay uniform attempt_count =
    backoff attempt_count + uniform (backoff attempt_count / 5)

pow-pos : (n : ℕ) → 1 ≤ 2 ^ n
pow-pos zero = omega arith
pow-pos (suc n) = omega (arith, pow-suc 2 n, pow-pos n)

-- Without jitter, a later attempt waits at least as long, and twice as long up to the cap.
pub backoff-suc : (n : ℕ) → 0 < n → backoff (suc n) ≡ min max_delay (backoff n * 2)
unfolding backoff
backoff-suc zero h = omega arith
backoff-suc (suc n) h = omega (arith, pow-suc 2 n)

pub backoff_bounds : (n : ℕ) → 0 < n → (base_delay ≤ backoff n) × (backoff n ≤ max_delay)
unfolding backoff
backoff_bounds zero h = omega arith
backoff_bounds (suc n) h = omega (arith, pow-pos n)
