-- ===== src/Breaker/Accounting.antt =====
-- The counters that `GetMetrics` reports.
use true_now.Base.{
  ℕ, ◌+◌, ◌%◌, ◌^◌, ◌<◌, ◌≡◌, String, Option, none, some, List, [], ◌∷◌, arith, length, subst,
}
use true_now.Base.Word.{Word, add64}
use true_now.Base.Float.{Float64}
use true_now.Breaker.{CircuitBreaker, new_circuit_breaker, call, get_metrics}
use true_now.Breaker.Trip.{call_all}

module _ (fl : Float64) where
  -- What the counters say of `calls` calls, all arithmetic modulo 2 ^ 64.
  record Accounts (calls : ℕ) (cb : CircuitBreaker fl.F) : Type 0 where
    outcomes : add64 cb.total_failures cb.total_successes ≡ cb.total_requests
    answered : add64 cb.total_requests cb.rejected_requests ≡ calls % 2 ^ 64
    bounded : cb.total_requests < 2 ^ 64

  call-Accounts :
      (now later : Word) (outcome : Option String) (n : ℕ) {cb : CircuitBreaker fl.F}
      → Accounts n cb
      → Accounts (n + 1) (call fl now later outcome cb).0
  unfolding call
  call-Accounts now later none n a = ground arith
  call-Accounts now later (some err) n a = ground arith

  call_all-Accounts :
      (calls : List (Word × Word × Option String)) (n : ℕ) {cb : CircuitBreaker fl.F}
      → Accounts n cb
      → Accounts (n + length calls) (call_all fl calls cb).0
  unfolding call_all
  call_all-Accounts [] n a = ground arith
  call_all-Accounts ((now, later, outcome) ∷ calls) n {cb} a =
      let rest = call_all-Accounts calls (n + 1) (call-Accounts now later outcome n a) in
      subst (λ k. Accounts k (call_all fl calls (call fl now later outcome cb).0).0) (omega arith)
        rest

  -- After any calls of `Call` on a new breaker, `GetMetrics` gives total requests that are the sum
  -- of the total failures and successes, and that make up, with the rejected requests, the number
  -- of calls; sums and number are taken modulo 2 ^ 64.
  get_metrics-call_all :
      (max timeout : Word) (calls : List (Word × Word × Option String))
      → let m = get_metrics (call_all fl calls (new_circuit_breaker fl max timeout)).0 in
        (add64 m.total_failures m.total_successes ≡ m.total_requests)
        × (add64 m.total_requests m.rejected_requests ≡ length calls % 2 ^ 64)
  unfolding get_metrics new_circuit_breaker
  get_metrics-call_all max timeout calls =
      let a : Accounts (0 + length calls)
          (call_all fl calls (new_circuit_breaker fl max timeout)).0 =
        call_all-Accounts calls 0 (ground arith) in
      (a.outcomes, omega (arith, a.answered))
