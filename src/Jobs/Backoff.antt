-- ===== src/Jobs/Backoff.antt =====
-- The delay before a retry (`computeBackoff` of worker.go).
use native.Mathlib.Nat.{pow-suc}
use open_blog.Base.{ℕ, zero, suc, ◌^◌, ◌≤◌, ◌<◌, arith}
use open_blog.Jobs.Queue.{compute_backoff, max_backoff}

pow-pos : (n : ℕ) → 0 < 2 ^ n
pow-pos zero = omega arith
pow-pos (suc n) = omega (arith, pow-suc 2 n, pow-pos n)

-- Every delay is positive and at most the cap of an hour, and one more attempt never shortens it.
pub compute_backoff_bounds :
    (attempts : ℕ)
    → (0 < compute_backoff attempts)
      × (compute_backoff attempts ≤ max_backoff)
      × (compute_backoff attempts ≤ compute_backoff (suc attempts))
unfolding compute_backoff
compute_backoff_bounds zero = (omega arith, omega arith, ground arith)
compute_backoff_bounds (suc n) = ground (arith, pow-suc 2 n, pow-pos n)
