-- ===== src/Breaker/Trip.antt =====
-- Opening: how many failures in a row it takes, and what an open breaker does with calls.
use true_now.Base.{
  ◌+◌, ◌%◌, ◌^◌, ◌≤◌, ◌<◌, ◌≡◌, String, Option, List, [], ◌∷◌, arith, if◌then◌else◌, ltb, length,
  replicate, All,
}
use true_now.Base.Word.{Word, add64}
use true_now.Base.Float.{Float64}
use true_now.Breaker.{
  closed, open_state, CircuitBreaker, CallResult, circuit_open, record_failure, call,
}

module _ (fl : Float64) where
  -- Failures reported one after another, at the times listed.
  pub fail_all : List Word → CircuitBreaker fl.F → CircuitBreaker fl.F
  fail_all [] cb = cb
  fail_all (now ∷ times) cb = fail_all times (record_failure fl now cb)

  failure_when_open :
      (now : Word) (cb : CircuitBreaker fl.F)
      → cb.state ≡ open_state
      → (record_failure fl now cb).state ≡ open_state
  unfolding record_failure
  failure_when_open now cb h = ground arith

  fail_all_when_open :
      (times : List Word) (cb : CircuitBreaker fl.F)
      → cb.state ≡ open_state
      → (fail_all times cb).state ≡ open_state
  unfolding fail_all
  fail_all_when_open [] cb h = h
  fail_all_when_open (now ∷ times) cb h =
      fail_all_when_open times (record_failure fl now cb) (failure_when_open now cb h)

  -- One failure of a closed breaker, with a limit that an int64 holds.
  failure_when_closed :
      (now : Word) (cb : CircuitBreaker fl.F)
      → cb.state ≡ closed
      → cb.failures < cb.max_failures
      → cb.max_failures < 2 ^ 63
      → let cb' = record_failure fl now cb in
        (cb'.state ≡ (if ltb (cb.failures + 1) cb.max_failures then closed else open_state))
        × (cb'.max_failures ≡ cb.max_failures)
        × (cb.failures + 1 < cb.max_failures → cb'.failures ≡ cb.failures + 1)
  unfolding record_failure
  failure_when_closed now cb h lt small = ground arith

  -- A closed breaker that has counted fewer failures than its limit (below 2 ^ 63), and is then
  -- told of failures only, is closed as long as the failures are fewer than the limit, and open from
  -- the failure that reaches it on.
  pub state-fail_all :
      (times : List Word) (cb : CircuitBreaker fl.F)
      → cb.state ≡ closed
      → cb.failures < cb.max_failures
      → cb.max_failures < 2 ^ 63
      → (fail_all times cb).state
        ≡ (if ltb (cb.failures + length times) cb.max_failures then closed else open_state)
  unfolding fail_all
  state-fail_all [] cb h lt small = ground arith
  state-fail_all (now ∷ times) cb h lt small =
      let cb' = record_failure fl now cb in
      ground (
        arith,
        failure_when_closed now cb h lt small,
        fail_all_when_open times cb',
        state-fail_all times cb',
      )

  -- Calls made one after another, each with its time, the time after it and what its function would
  -- return.
  unfoldable pub call_all :
      List (Word × Word × Option String)
      → CircuitBreaker fl.F
      → CircuitBreaker fl.F × List CallResult
  call_all [] cb = (cb, [])
  call_all ((now, later, outcome) ∷ calls) cb =
      let (cb', r) = call fl now later outcome cb in
      let (cb'', rs) = call_all calls cb' in (cb'', r ∷ rs)

  -- The call comes at most a timeout after the failure at `last`.
  abbrev pub IsEarly : Word → Word → Word × Word × Option String → Type 0
  IsEarly last timeout c = (last ≤ c.0) × (c.0 ≤ last + timeout)

  early_call :
      (now later : Word) (outcome : Option String) (cb : CircuitBreaker fl.F)
      → cb.state ≡ open_state
      → cb.last_failure_time + cb.timeout < 2 ^ 63
      → cb.last_failure_time ≤ now
      → now ≤ cb.last_failure_time + cb.timeout
      → call fl now later outcome cb
        ≡ (record cb { rejected_requests = add64 cb.rejected_requests 1 }, circuit_open)
  unfolding call
  early_call now later outcome cb h small lo hi = ground arith

  -- An open breaker rejects each call that is made at most its timeout after the last failure (all
  -- times below 2 ^ 63): the calls' functions are not run, every one returns `ErrCircuitOpen`, and
  -- of the breaker's fields only the count of rejected requests changes, by one for each call.
  pub call_all_when_open :
      (calls : List (Word × Word × Option String)) (cb : CircuitBreaker fl.F)
      → cb.state ≡ open_state
      → cb.last_failure_time + cb.timeout < 2 ^ 63
      → cb.rejected_requests < 2 ^ 64
      → All (IsEarly cb.last_failure_time cb.timeout) calls
      → call_all calls cb ≡ (
        record cb { rejected_requests = (cb.rejected_requests + length calls) % 2 ^ 64 },
        replicate (length calls) circuit_open,
      )
  unfolding call_all
  call_all_when_open [] cb h small r early = ground arith
  call_all_when_open ((now, later, outcome) ∷ calls) cb h small r early =
      let cb' = record cb { rejected_requests = add64 cb.rejected_requests 1 } in
      rw (early_call now later outcome cb h small early.0.0 early.0.1)
        (rw (call_all_when_open calls cb' h small (omega arith) early.1) (ground arith))
