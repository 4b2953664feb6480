-- ===== src/Router/Retries.antt =====
-- How often a request is tried, and how long it waits.
use true_now.Base.{ℕ, zero, suc, ◌*◌, ◌≤◌, ◌≡◌, true, arith, All, length, Option-cases, inl, inr}
use true_now.Base.Word.{sle, second}
use true_now.Router.{Router, Attempt, route_to_service, backoff, retry, route_with_retry}

-- No wait is longer than two seconds, as signed numbers.
backoff_bound : (i : ℕ) → sle (backoff i) (2 * second) ≡ true
unfolding backoff
backoff_bound i = ground arith

retry_bound :
    (attempts : ℕ → Attempt) (i left : ℕ) (r : Router)
    → let (r', (err, slept)) = retry attempts i left r in
      (length slept ≤ left) × All (λ time. sle time (2 * second) ≡ true) slept
unfolding retry
retry_bound attempts i zero r = (omega arith, tt)
retry_bound attempts i (suc left) r =
    let (r', err) = route_to_service (attempts i) r in
    let rest = retry_bound attempts (suc i) left r' in
    elim (Option-cases (route_to_service (attempts i) r).1) [
      | inl e ↦ rw (e, retry) (omega arith, tt)
      | inr (x, e) ↦ rw (e, retry) (omega (arith, rest.0), (backoff_bound i, rest.1))
    ]

-- Routing with retries sleeps at most once for each retry, and never longer than two seconds.
route_with_retry_bound :
    (attempts : ℕ → Attempt) (max_retries : ℕ) (r : Router)
    → let (r', (err, slept)) = route_with_retry attempts max_retries r in
      (length slept ≤ max_retries) × All (λ time. sle time (2 * second) ≡ true) slept
unfolding route_with_retry
route_with_retry_bound attempts max_retries r = retry_bound attempts 0 max_retries r
