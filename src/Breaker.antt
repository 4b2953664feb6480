-- ===== src/Breaker.antt =====
-- The gateway's circuit breaker (services/gateway/internal/circuit/breaker.go). A method on
-- `*CircuitBreaker` returns the new breaker, with its result beside it. The atomic fields are read
-- and written by one goroutine at a time. The clock is an argument, the nanoseconds of `time.Now()`.
pub mod Invariant
pub mod Trip
pub mod Recovery
pub mod Accounting
mod Examples
use true_now.Base.{
  ℕ, ◌*◌, String, Bool, true, false, Option, none, some, List, [], ◌∷◌, if◌then◌else◌, eqb,
}
use true_now.Base.Word.{Word, add64, slt, sle, sdiv, time_sub, second}
use true_now.Base.Float.{Float64}

-- `State`; the `default` branch of `AllowRequest` is for other values of the int32, which
-- nothing stores.
pub data State : Type 0 where
  closed open_state half_open : State

pub record CircuitBreaker (F : Type 0) : Type 0 where
  pub max_failures : Word
  pub max_requests : Word
  pub timeout : Word
  pub backoff_multiplier : F
  pub state : State
  pub failures : Word
  pub successes : Word
  pub last_failure_time : Word
  pub half_open_requests : Word
  pub total_requests : Word
  pub total_failures : Word
  pub total_successes : Word
  pub rejected_requests : Word

-- What `Call` returns: `ErrCircuitOpen`, the error of `fn`, or nil.
pub data CallResult : Type 0 where
  circuit_open : CallResult
  failed : String → CallResult
  succeeded : CallResult

-- The map of `GetMetrics`, its keys as fields.
pub record Metrics : Type 0 where
  pub total_requests : Word
  pub total_failures : Word
  pub total_successes : Word
  pub rejected_requests : Word
  pub current_failures : Word
  pub state : Word

abbrev pub max_timeout : Word
max_timeout = 30 * second

-- `int64(state)`, by the `iota` of the constants
abbrev pub state_code : State → Word
state_code closed = 0
state_code open_state = 1
state_code half_open = 2

module _ {F : Type 0} where
  -- The `switch` of `transitionTo`, on the new state.
  unfoldable pub transition_to : CircuitBreaker F → State → CircuitBreaker F
  transition_to cb closed = record cb {
    failures = 0;
    successes = 0;
    half_open_requests = 0;
    timeout = second;
    state = closed;
  }
  transition_to cb open_state = record cb { failures = 0; successes = 0; state = open_state }
  transition_to cb half_open = record cb {
    half_open_requests = 0;
    successes = 0;
    state = half_open;
  }

  allow_in : State → Word → CircuitBreaker F → CircuitBreaker F × Bool
  unfolding transition_to
  allow_in closed now cb = (cb, true)
  allow_in open_state now cb =
      if slt cb.timeout (time_sub now cb.last_failure_time)
      then (transition_to cb half_open, true)
      else (cb, false)
  allow_in half_open now cb =
      let current = add64 cb.half_open_requests 1 in
      (record cb { half_open_requests = current }, sle current cb.max_requests)

  unfoldable pub allow_request : Word → CircuitBreaker F → CircuitBreaker F × Bool
  unfolding allow_in
  allow_request now cb = allow_in cb.state now cb

  success_in : State → CircuitBreaker F → CircuitBreaker F
  unfolding transition_to
  success_in half_open cb =
      let cb' = record cb { successes = add64 cb.successes 1 } in
      if sle (sdiv cb.max_requests 2) cb'.successes then transition_to cb' closed else cb'
  success_in closed cb = record cb { failures = 0 }
  success_in open_state cb = cb

  unfoldable pub record_success : CircuitBreaker F → CircuitBreaker F
  unfolding success_in
  record_success cb =
      success_in cb.state (record cb { total_successes = add64 cb.total_successes 1 })

  unfoldable pub get_metrics : CircuitBreaker F → Metrics
  get_metrics cb = record {
    total_requests = cb.total_requests;
    total_failures = cb.total_failures;
    total_successes = cb.total_successes;
    rejected_requests = cb.rejected_requests;
    current_failures = cb.failures;
    state = state_code cb.state;
  }

  unfoldable pub reset : CircuitBreaker F → CircuitBreaker F
  unfolding transition_to
  reset cb = record (transition_to cb closed) {
    total_requests = 0;
    total_failures = 0;
    total_successes = 0;
    rejected_requests = 0;
  }

module _ (fl : Float64) where
  open fl use {F, of_int64, to_int64, lit, mul}

  unfoldable pub new_circuit_breaker : Word → Word → CircuitBreaker F
  new_circuit_breaker max_failures timeout = record {
    max_failures = max_failures;
    max_requests = sdiv max_failures 2;
    timeout = timeout;
    backoff_multiplier = lit 2 1;
    state = closed;
    failures = 0;
    successes = 0;
    last_failure_time = 0;
    half_open_requests = 0;
    total_requests = 0;
    total_failures = 0;
    total_successes = 0;
    rejected_requests = 0;
  }

  -- The timeout after a failed probe.
  unfoldable pub backoff : CircuitBreaker F → Word
  backoff cb =
      let timeout = to_int64 (mul (of_int64 cb.timeout) cb.backoff_multiplier) in
      if slt max_timeout timeout then max_timeout else timeout

  failure_in : State → CircuitBreaker F → CircuitBreaker F
  unfolding transition_to
  failure_in closed cb =
      let cb' = record cb { failures = add64 cb.failures 1 } in
      if sle cb.max_failures cb'.failures then transition_to cb' open_state else cb'
  failure_in half_open cb =
      let cb' = transition_to cb open_state in record cb' { timeout = backoff cb' }
  failure_in open_state cb = cb

  unfoldable pub record_failure : Word → CircuitBreaker F → CircuitBreaker F
  unfolding failure_in
  record_failure now cb =
      failure_in cb.state
        (record cb { total_failures = add64 cb.total_failures 1; last_failure_time = now })

  record_outcome : Word → Option String → CircuitBreaker F → CircuitBreaker F × CallResult
  unfolding record_failure record_success
  record_outcome now none cb = (record_success cb, succeeded)
  record_outcome now (some err) cb = (record_failure now cb, failed err)

  -- `Call(fn)`: `outcome` is what `fn` returns if it is run, and `later` the time after it.
  unfoldable pub call :
      Word → Word → Option String → CircuitBreaker F → CircuitBreaker F × CallResult
  unfolding allow_request record_outcome
  call now later outcome cb =
      let (cb', allowed) = allow_request now cb in
      if allowed
      then record_outcome later outcome (record cb' { total_requests = add64 cb'.total_requests 1 })
      else (record cb' { rejected_requests = add64 cb'.rejected_requests 1 }, circuit_open)
