-- ===== src/Dispatch/Policy.antt =====
-- app/core/services/dispatch_policy.py: limits, delays and exclusions of the dispatch retries.
use tasker_api.Prelude.{
  ℕ, zero, suc, ◌*◌, ◌≤◌, min, Bool, true, false, Option, some, List, [], ◌∷◌, ltb, ◌≡◌, arith,
}
use tasker_api.Models.{DispatchAttemptStatus}

-- `AUTO_DISPATCH_MAX`
abbrev pub auto_dispatch_max : ℕ
auto_dispatch_max = 5

-- `MANUAL_DISPATCH_MAX`
abbrev pub manual_dispatch_max : ℕ
manual_dispatch_max = 3

-- `RETRY_DELAYS_SECONDS`
abbrev pub retry_delays_seconds : List ℕ
retry_delays_seconds = 120 ∷ 300 ∷ 600 ∷ 1200 ∷ 1800 ∷ []

-- `BATCH_SIZE`
abbrev pub default_batch_size : ℕ
default_batch_size = 5

-- `PING_DURATION_SECONDS`
abbrev pub ping_duration_seconds : ℕ
ping_duration_seconds = 540

-- `CANDIDATE_POOL_SIZE`
abbrev pub candidate_pool_size : ℕ
candidate_pool_size = 500

-- `STALE_CLAIM_TIMEOUT_SECONDS`
abbrev pub stale_claim_timeout_seconds : ℕ
stale_claim_timeout_seconds = ping_duration_seconds * 2

unfoldable pub can_auto_retry : ℕ → Bool
can_auto_retry auto_dispatch_count = ltb auto_dispatch_count auto_dispatch_max

unfoldable pub can_manual_redispatch : ℕ → Bool
can_manual_redispatch manual_dispatch_count = ltb manual_dispatch_count manual_dispatch_max

-- An index out of range would raise in Python; `get_next_retry_delay` keeps it in range.
abbrev pub nth : List ℕ → ℕ → ℕ
nth [] i = 0
nth (x ∷ xs) zero = x
nth (x ∷ xs) (suc i) = nth xs i

-- `get_next_retry_delay`, in seconds.
unfoldable pub get_next_retry_delay : ℕ → ℕ
get_next_retry_delay auto_dispatch_count = nth retry_delays_seconds (min auto_dispatch_count 4)

-- `should_exclude_provider_status`
unfoldable pub should_exclude_provider_status : Option DispatchAttemptStatus → Bool
should_exclude_provider_status (some DispatchAttemptStatus.declined) = true
should_exclude_provider_status (some DispatchAttemptStatus.timeout) = true
should_exclude_provider_status (some DispatchAttemptStatus.cancelled) = true
should_exclude_provider_status _ = false

-- A later retry waits at least as long, and every retry waits 2 to 30 minutes.
pub retry_delay_bounds : (n : ℕ) → (120 ≤ get_next_retry_delay n) × (get_next_retry_delay n ≤ 1800)
unfolding get_next_retry_delay
retry_delay_bounds zero = omega arith
retry_delay_bounds (suc zero) = omega arith
retry_delay_bounds (suc (suc zero)) = omega arith
retry_delay_bounds (suc (suc (suc zero))) = omega arith
retry_delay_bounds (suc (suc (suc (suc n)))) =
    let last : min (suc (suc (suc (suc n)))) 4 ≡ 4 = omega arith in rw last (omega arith)
