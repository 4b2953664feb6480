-- ===== src/Breaker/Invariant.antt =====
-- What holds of a breaker between two operations, whichever they are.
use true_now.Base.{
  ◌^◌, ◌/◌, ◌<◌, ◌≡◌, ◌≢◌, ◌⊎◌, inl, inr, String, true, Option, none, some, List, [], ◌∷◌, arith,
  Bool-cases,
}
use true_now.Base.Word.{Word, add64, sle}
use true_now.Base.Float.{Float64}
use true_now.Breaker.{
  closed, open_state, half_open, CircuitBreaker, max_timeout, new_circuit_breaker, allow_request,
  record_success, record_failure, call, reset, backoff, transition_to, record_outcome,
}

-- The operations that a client makes.
pub data Op : Type 0 where
  allows : Word → Op
  succeeds : Op
  fails : Word → Op
  calls : Word → Word → Option String → Op
  resets : Op

module _ (fl : Float64) where
  unfoldable pub step : CircuitBreaker fl.F → Op → CircuitBreaker fl.F
  step cb (allows now) = (allow_request now cb).0
  step cb succeeds = record_success cb
  step cb (fails now) = record_failure fl now cb
  step cb (calls now later outcome) = (call fl now later outcome cb).0
  step cb resets = reset cb

  unfoldable pub run : CircuitBreaker fl.F → List Op → CircuitBreaker fl.F
  run cb [] = cb
  run cb (op ∷ ops) = run (step cb op) ops

  -- `max` and `timeout` are the breaker's arguments at its creation.
  pub record Inv (max timeout : Word) (cb : CircuitBreaker fl.F) : Type 0 where
    pub max_kept : cb.max_failures ≡ max
    pub requests_kept : cb.max_requests ≡ max / 2
    pub failures_below : cb.failures < max
    pub counts_when_closed : cb.state ≢ closed → cb.failures ≡ 0
    pub probes_pending : (cb.successes ≡ 0) ⊎ (cb.successes < max / 2 / 2)
    pub successes_when_half_open : cb.state ≢ half_open → cb.successes ≡ 0
    pub timeout_capped : (cb.timeout ≡ timeout) ⊎ (sle cb.timeout max_timeout ≡ true)

  backoff_capped : (cb : CircuitBreaker fl.F) → sle (backoff fl cb) max_timeout ≡ true
  unfolding backoff
  backoff_capped cb = ground arith

  module _ {max timeout : Word} (pos : 0 < max) (small : max < 2 ^ 63) where
    allow_request-Inv :
        (now : Word) {cb : CircuitBreaker fl.F}
        → Inv max timeout cb
        → Inv max timeout (allow_request now cb).0
    unfolding allow_request
    allow_request-Inv now v = ground arith

    record_success-Inv :
        {cb : CircuitBreaker fl.F} → Inv max timeout cb → Inv max timeout (record_success cb)
    unfolding record_success
    record_success-Inv v = ground arith

    record_failure-Inv :
        (now : Word) {cb : CircuitBreaker fl.F}
        → Inv max timeout cb
        → Inv max timeout (record_failure fl now cb)
    unfolding record_failure transition_to
    record_failure-Inv now {cb} v = ground (
      arith,
      backoff_capped (
          transition_to
            (record cb { total_failures = add64 cb.total_failures 1; last_failure_time = now })
            open_state),
    )

    -- `Inv` does not read the counters of requests.
    counted-Inv :
        (total rejected : Word) {cb : CircuitBreaker fl.F}
        → Inv max timeout cb
        → Inv max timeout (record cb { total_requests = total; rejected_requests = rejected })
    counted-Inv total rejected v = ground arith

    record_outcome-Inv :
        (later : Word) (outcome : Option String) {cb : CircuitBreaker fl.F}
        → Inv max timeout cb
        → Inv max timeout (record_outcome fl later outcome cb).0
    unfolding record_outcome
    record_outcome-Inv later none v = record_success-Inv v
    record_outcome-Inv later (some err) v = record_failure-Inv later v

    call-Inv :
        (now later : Word) (outcome : Option String) {cb : CircuitBreaker fl.F}
        → Inv max timeout cb
        → Inv max timeout (call fl now later outcome cb).0
    unfolding call
    call-Inv now later outcome {cb} v = elim (Bool-cases (allow_request now cb).1) [
      | inl yes_ ↦
          rw yes_ (record_outcome-Inv later outcome (counted-Inv _ _ (allow_request-Inv now v)))
      | inr no_ ↦ rw no_ (counted-Inv _ _ (allow_request-Inv now v))
    ]

    step-Inv :
        (op : Op) {cb : CircuitBreaker fl.F} → Inv max timeout cb → Inv max timeout (step cb op)
    unfolding step reset
    step-Inv (allows now) v = allow_request-Inv now v
    step-Inv succeeds v = record_success-Inv v
    step-Inv (fails now) v = record_failure-Inv now v
    step-Inv (calls now later outcome) v = call-Inv now later outcome v
    step-Inv resets v = ground arith

    run-Inv :
        (ops : List Op) {cb : CircuitBreaker fl.F}
        → Inv max timeout cb
        → Inv max timeout (run cb ops)
    unfolding run
    run-Inv [] v = v
    run-Inv (op ∷ ops) v = run-Inv ops (step-Inv op v)

    new-Inv : Inv max timeout (new_circuit_breaker fl max timeout)
    unfolding new_circuit_breaker
    new-Inv = ground arith

    -- After any history of a breaker made with `max` failures (0 < max < 2 ^ 63) and a timeout:
    -- its limits are `max` and `max / 2`; the failures counted are fewer than `max`, and 0 unless it
    -- is closed; the successes counted are 0, or fewer than half the probes allowed, and 0 unless
    -- it is half open; its timeout is the first one or at most 30 seconds.
    pub run-new-Inv :
        (ops : List Op) → Inv max timeout (run (new_circuit_breaker fl max timeout) ops)
    run-new-Inv ops = run-Inv ops new-Inv
