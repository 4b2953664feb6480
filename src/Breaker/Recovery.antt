-- ===== src/Breaker/Recovery.antt =====
-- Half-open: how many probes are let through, when they close the breaker, and how the timeout grows
-- when they fail.
use true_now.Base.{
  ℕ, zero, suc, ◌+◌, ◌-◌, ◌*◌, ◌/◌, ◌^◌, ◌≤◌, ◌<◌, ◌≡◌, ap, List, [], ◌∷◌, arith, if◌then◌else◌,
  leb, min, length,
}
use native.Mathlib.Nat.{pow-suc}
use native.Mathlib.Decide.{dec_le}
use true_now.Base.Word.{Word, add64, second}
use true_now.Base.Float.{Float64}
use true_now.Breaker.{
  closed, open_state, half_open, CircuitBreaker, max_timeout, allow_request, record_success,
  record_failure, backoff, transition_to,
}

module _ {F : Type 0} where
  -- Requests that ask to be allowed, at the times listed; how many are.
  unfoldable pub admitted : List Word → CircuitBreaker F → ℕ
  admitted [] cb = 0
  admitted (now ∷ times) cb =
      let (cb', allowed) = allow_request now cb in
      let rest = admitted times cb' in if allowed then suc rest else rest

  admitted_half_open :
      (times : List Word) (cb : CircuitBreaker F)
      → cb.state ≡ half_open
      → cb.max_requests < 2 ^ 62
      → cb.half_open_requests + length times < 2 ^ 63
      → admitted times cb ≡ min (length times) (cb.max_requests - cb.half_open_requests)
  unfolding admitted allow_request
  admitted_half_open [] cb h small room = ground arith
  admitted_half_open (now ∷ times) cb h small room = ground (
    arith,
    admitted_half_open times (record cb { half_open_requests = add64 cb.half_open_requests 1 }),
  )

  -- From an open breaker whose timeout is over at the first request, when nothing is reported in
  -- between, `max_requests` and one more requests are let through, or all if they are fewer (limits
  -- and number of requests below 2 ^ 62, and the times below 2 ^ 63).
  admitted_after_timeout :
      (now : Word) (times : List Word) (cb : CircuitBreaker F)
      → cb.state ≡ open_state
      → cb.last_failure_time + cb.timeout < now
      → now < 2 ^ 63
      → cb.max_requests < 2 ^ 62
      → length times < 2 ^ 62
      → admitted (now ∷ times) cb ≡ min (suc (length times)) (cb.max_requests + 1)
  unfolding admitted allow_request transition_to
  admitted_after_timeout now times cb h over small m few =
      ground (arith, admitted_half_open times (transition_to cb half_open))

  -- Successes reported one after another.
  pub succeed_all : ℕ → CircuitBreaker F → CircuitBreaker F
  succeed_all zero cb = cb
  succeed_all (suc n) cb = succeed_all n (record_success cb)

  success_when_half_open :
      (cb : CircuitBreaker F)
      → cb.state ≡ half_open
      → cb.max_requests < 2 ^ 63
      → cb.successes < 2 ^ 62
      → let cb' = record_success cb in
        (cb'.state ≡ (if leb (cb.max_requests / 2) (cb.successes + 1) then closed else half_open))
        × (cb'.max_requests ≡ cb.max_requests)
        × (cb'.state ≡ half_open → cb'.successes ≡ cb.successes + 1)
        × (cb'.state ≡ closed → (cb'.timeout ≡ second) × (cb'.failures ≡ 0))
  unfolding record_success
  success_when_half_open cb h small few = ground arith

  success_when_closed :
      (cb : CircuitBreaker F)
      → cb.state ≡ closed
      → let cb' = record_success cb in
        (cb'.state ≡ closed) × (cb'.timeout ≡ cb.timeout) × (cb'.failures ≡ 0)
  unfolding record_success
  success_when_closed cb h = ground arith

  succeed_all_when_closed :
      (n : ℕ) (cb : CircuitBreaker F) → cb.state ≡ closed → (succeed_all n cb).state ≡ closed
  unfolding succeed_all
  succeed_all_when_closed zero cb h = h
  succeed_all_when_closed (suc n) cb h =
      succeed_all_when_closed n (record_success cb) (success_when_closed cb h).0

  -- A half open breaker that has counted `successes` and is then told of one or more successes is
  -- closed exactly if the successes together reach half of the probes allowed, rounded down (the
  -- limit below 2 ^ 63, the number of successes below 2 ^ 62); else it is still half open.
  pub state-succeed_all :
      (n : ℕ) (cb : CircuitBreaker F)
      → cb.state ≡ half_open
      → cb.max_requests < 2 ^ 63
      → cb.successes + n < 2 ^ 62
      → (succeed_all (suc n) cb).state
        ≡ (if leb (cb.max_requests / 2) (cb.successes + suc n) then closed else half_open)
  unfolding succeed_all
  state-succeed_all zero cb h small few =
      ground (arith, success_when_half_open cb h small (omega arith))
  state-succeed_all (suc n) cb h small few =
      let cb' = record_success cb in
      ground (
        arith,
        success_when_half_open cb h small (omega arith),
        succeed_all_when_closed (suc n) cb',
        state-succeed_all n cb',
      )

mul-grow : (a b p : ℕ) → a ≤ b → 0 < p → a ≤ b * p
mul-grow a b p h pos = grind arith

pow_pos : (n : ℕ) → 0 < 2 ^ n
pow_pos zero = omega arith
pow_pos (suc n) = rw pow-suc (omega (arith, pow_pos n))

min-double : (t m p : ℕ) → 0 < p → min (min (2 * t) m * p) m ≡ min (t * (p * 2)) m
min-double t m p pos = elim (dec_le (2 * t) m) [
  | yes h ↦ let e : min (2 * t) m ≡ 2 * t = omega arith in rw e (omega arith)
  | no h ↦
      let e : min (2 * t) m ≡ m = omega arith in
      rw e (omega (arith, mul-grow m m p (omega arith) pos, mul-grow m (2 * t) p (omega arith) pos))
]

module _ (fl : Float64) where
  -- `float64(t) * 2.0`, back as an int64, is twice `t` while that is below 2 ^ 53.
  abbrev pub DoublesExactly : Type 0
  DoublesExactly =
      (t : Word) → t < 2 ^ 52 → fl.to_int64 (fl.mul (fl.of_int64 t) (fl.lit 2 1)) ≡ 2 * t

  -- A probe at `now` that is let through and fails at `later`.
  unfoldable pub retry : Word × Word → CircuitBreaker fl.F → CircuitBreaker fl.F
  retry (now, later) cb = record_failure fl later (allow_request now cb).0

  pub retry_all : List (Word × Word) → CircuitBreaker fl.F → CircuitBreaker fl.F
  retry_all [] cb = cb
  retry_all (probe ∷ probes) cb = retry_all probes (retry probe cb)

  -- Each probe comes after the timeout of the failure before it, and its times are below 2 ^ 63.
  abbrev pub AllLate : List (Word × Word) → CircuitBreaker fl.F → Type 0
  AllLate [] cb = Unit
  AllLate ((now, later) ∷ probes) cb =
      ((cb.last_failure_time + cb.timeout < now) × (now < 2 ^ 63) × (later < 2 ^ 63))
      × AllLate probes (retry (now, later) cb)

  retry_lem :
      (exact : DoublesExactly) (now later : Word) (cb : CircuitBreaker fl.F)
      → cb.state ≡ open_state
      → cb.backoff_multiplier ≡ fl.lit 2 1
      → cb.timeout ≤ max_timeout
      → cb.last_failure_time + cb.timeout < now
      → now < 2 ^ 63
      → let cb' = retry (now, later) cb in
        (cb'.state ≡ open_state)
        × (cb'.backoff_multiplier ≡ fl.lit 2 1)
        × (cb'.timeout ≡ min (2 * cb.timeout) max_timeout)
        × (cb'.last_failure_time ≡ later)
  unfolding retry allow_request record_failure backoff
  retry_lem exact now later cb h two cap late small = ground (
    arith,
    exact cb.timeout (omega arith),
    ap (λ m. fl.to_int64 (fl.mul (fl.of_int64 cb.timeout) m)) two,
  )

  -- An open breaker with a timeout of at most 30 seconds whose probes all fail, each let through
  -- after the timeout of the failure before it, is open again after each, and has doubled its
  -- timeout each time, up to 30 seconds. It is assumed that float64 doubles exactly below 2 ^ 53.
  timeout-retry_all :
      (exact : DoublesExactly) (probes : List (Word × Word)) (cb : CircuitBreaker fl.F)
      → cb.state ≡ open_state
      → cb.backoff_multiplier ≡ fl.lit 2 1
      → cb.timeout ≤ max_timeout
      → AllLate probes cb
      → let cb' = retry_all probes cb in
        (cb'.state ≡ open_state) × (cb'.timeout ≡ min (cb.timeout * 2 ^ length probes) max_timeout)
  unfolding retry_all
  timeout-retry_all exact [] cb h two cap late = (h, omega arith)
  timeout-retry_all exact ((now, later) ∷ probes) cb h two cap late =
      let (h', two', t', _) = retry_lem exact now later cb h two cap late.0.0 late.0.1 in
      let (o, t) =
        timeout-retry_all exact probes (retry (now, later) cb) h' two' (omega arith) late.1 in
      (
        o,
        rw (t, t', pow-suc)
            (min-double cb.timeout max_timeout (2 ^ length probes) (pow_pos (length probes))),
      )
