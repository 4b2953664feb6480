-- ===== src/Breaker/Examples.antt =====
-- The breaker of a limit of four failures and a timeout of ten seconds, on concrete histories.
use true_now.Base.{ℕ, ◌*◌, ◌≡◌, refl, String, Option, none, some, List, [], ◌∷◌, arith}
use true_now.Base.Word.{Word, second}
use true_now.Base.Float.{whole_float}
use true_now.Breaker.{
  closed, open_state, half_open, CircuitBreaker, circuit_open, new_circuit_breaker,
}
use true_now.Breaker.Invariant.{Op, allows, succeeds, fails, calls, Inv, run, run-new-Inv}
use true_now.Breaker.Trip.{fail_all, state-fail_all, call_all, call_all_when_open}
use true_now.Breaker.Recovery.{succeed_all, state-succeed_all}

abbrev fresh : CircuitBreaker ℕ
fresh = record {
  max_failures = 4;
  max_requests = 2;
  timeout = 10 * second;
  backoff_multiplier = 2;
  state = closed;
  failures = 0;
  successes = 0;
  last_failure_time = 0;
  half_open_requests = 0;
  total_requests = 0;
  total_failures = 0;
  total_successes = 0;
  rejected_requests = 0;
}

-- Failed at 5 seconds.
abbrev opened : CircuitBreaker ℕ
opened = record fresh { state = open_state; last_failure_time = 5 * second }

abbrev probing : CircuitBreaker ℕ
probing = record fresh { state = half_open }

-- A history that opens the breaker, probes it, and closes it.
abbrev history : List Op
history =
    fails 1
    ∷ fails 2
    ∷ fails 3
    ∷ fails 4
    ∷ allows (11 * second)
    ∷ succeeds
    ∷ calls (12 * second) (13 * second) none
    ∷ []

new_circuit_breaker-fresh : new_circuit_breaker whole_float 4 (10 * second) ≡ fresh
unfolding new_circuit_breaker
new_circuit_breaker-fresh = refl

run-new-Inv_example :
    Inv whole_float 4
      (10 * second)
      (run whole_float (new_circuit_breaker whole_float 4 (10 * second)) history)
run-new-Inv_example = run-new-Inv whole_float (omega arith) (omega arith) history

state-fail_all_example : (fail_all whole_float (1 ∷ 2 ∷ 3 ∷ 4 ∷ 5 ∷ []) fresh).state ≡ open_state
state-fail_all_example =
    state-fail_all whole_float (1 ∷ 2 ∷ 3 ∷ 4 ∷ 5 ∷ []) fresh refl (omega arith) (omega arith)

-- Two calls in the ten seconds after the failure.
abbrev early_calls : List (Word × Word × Option String)
early_calls = (6 * second, 7 * second, none) ∷ (15 * second, 15 * second, some "down") ∷ []

call_all_when_open_example :
    call_all whole_float early_calls opened
    ≡ (record opened { rejected_requests = 2 }, circuit_open ∷ circuit_open ∷ [])
call_all_when_open_example =
    call_all_when_open whole_float early_calls opened refl (omega arith) (omega arith) (omega arith)

state-succeed_all_example : (succeed_all 1 probing).state ≡ closed
state-succeed_all_example = state-succeed_all 0 probing refl (omega arith) (omega arith)
