-- ===== src/Hardening/Backoff.antt =====
-- internal/hardening/hardening.go: the waits before a retry, and the budget.
use omni_orchestration.Prelude.{
  ℕ, zero, suc, ◌+◌, ◌-◌, ◌*◌, ◌^◌, ◌≤◌, ◌<◌, ◌≡◌, ap, ◌∙◌, ltb, arith,
}
use native.Mathlib.Omega.{pow_step}
use omni_orchestration.Hardening.{
  WorkerBudget, new_worker_budget, can_retry, record_retry, retry_backoff, max_backoff, second,
  smaller,
}

double : (n : ℕ) → 2 ^ (n + 1) ≡ 2 * 2 ^ n
double n = ap (λ m. 2 ^ m) (omega arith) ∙ pow_step 2 n

pow-pos : (n : ℕ) → 1 ≤ 2 ^ n
pow-pos zero = omega arith
pow-pos (suc n) = omega (arith, pow-pos n, double n)

pow_ten : (n : ℕ) → 512 ≤ 2 ^ (n + 9)
pow_ten zero = omega arith
pow_ten (suc n) =
    let next : 2 ^ (suc n + 9) ≡ 2 * 2 ^ (n + 9) = ap (λ m. 2 ^ m) (omega arith) ∙ double (n + 9) in
    omega (arith, pow_ten n, next)

from_one : (n k : ℕ) → 2 ^ (n + (k + 1) - 1) ≡ 2 ^ (n + k)
from_one n k = ap (λ m. 2 ^ m) (omega arith)

-- The wait doubles with each retry until it reaches the cap.
pub retry_backoff-suc :
    (n : ℕ) → retry_backoff (n + 2) ≡ smaller (2 * retry_backoff (n + 1)) max_backoff
unfolding retry_backoff
retry_backoff-suc n = rw (from_one n 1, from_one n 0) (ground (arith, double n))

-- From the first retry on, the wait is at least a second and at most five minutes.
pub retry_backoff_bounds :
    (n : ℕ) → (second ≤ retry_backoff (n + 1)) × (retry_backoff (n + 1) ≤ max_backoff)
unfolding retry_backoff
retry_backoff_bounds n = rw (from_one n 0) (ground (arith, pow-pos n))

-- From the tenth retry on, the wait is the cap of five minutes.
pub retry_backoff_capped : (n : ℕ) → retry_backoff (n + 10) ≡ max_backoff
unfolding retry_backoff
retry_backoff_capped n = rw (from_one n 9) (ground (arith, pow_ten n))

unfoldable pub retry_all : ℕ → WorkerBudget → WorkerBudget
retry_all zero b = b
retry_all (suc n) b = retry_all n (record_retry b)

retry_all-counts :
    (n : ℕ) (b : WorkerBudget) → retry_all n b ≡ record b { retry_count = b.retry_count + n }
unfolding retry_all
retry_all-counts zero b = ground arith
retry_all-counts (suc n) b = retry_all-counts n (record_retry b) ∙ ground arith

-- A new budget for a positive number of retries allows exactly that number of them.
pub can_retry-retry_all :
    (retries runtime n : ℕ)
    → 0 < retries
    → can_retry (retry_all n (new_worker_budget retries runtime)) ≡ ltb n retries
can_retry-retry_all retries runtime n h =
    rw (retry_all-counts n (new_worker_budget retries runtime)) (ground arith)
