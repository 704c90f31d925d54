-- ===== src/Gateway/Settlement.antt =====
-- What one call of `_request` returns, how often it goes to the network, and what it tells the
-- circuit breaker.
use opsflow.Prelude.{
  ℕ, zero, suc, ◌≤◌, ◌≡◌, refl, ◌⊎◌, true, false, Option, some, [], ok, err, length, arith,
}
use opsflow.Circuit.{CircuitBreaker, CircuitPermit, CircuitOpenError, acquire_permission}
use opsflow.Gateway.{
  Method, is_retryable_read, Attempt, circuit_open, circuit_is_open, Policy, CallState, Answer,
  maximum_attempts, started, request,
}
use opsflow.Gateway.Retry.{verdict, reported, Decided, attempt_loop-Decided}

module _ (policy : Policy) (transport : ℕ → Attempt) (clock : ℕ → ℕ)
    (meanwhile : CircuitBreaker → CircuitBreaker) (method : Method) where
  abbrev call : Option CircuitBreaker → Answer
  call = request policy transport clock meanwhile method

  -- The call was decided after `m` repeated attempts, with the permit `p`.
  abbrev pub CallDecided : Option CircuitPermit → ℕ → CallState → Answer → Type 0
  CallDecided p m = Decided policy p clock (maximum_attempts policy method p) transport 1 m

  maximum_attempts_pos :
      (p : Option CircuitPermit)
      → 1 ≤ policy.read_max_attempts
      → 1 ≤ maximum_attempts policy method p
  unfolding maximum_attempts
  maximum_attempts_pos p h = ground arith

  -- With a permit, and at least one read attempt configured, the call is decided by the first attempt
  -- that is not to be repeated, or by the last one allowed: its result is the call's, it alone is
  -- reported to the breaker, whatever the attempts before it were, and between the attempts the call
  -- slept by exponential backoff.
  pub request_decided :
      (b : CircuitBreaker) {b' : CircuitBreaker} {p : CircuitPermit}
      → 1 ≤ policy.read_max_attempts
      → acquire_permission (clock 0) b ≡ (ok p, b')
      → (m : ℕ) × CallDecided (some p) m (started (some (meanwhile b'))) (call (some b))
  unfolding request
  request_decided b {b'} {p} h e = rw e (
      attempt_loop-Decided policy (some p) clock (maximum_attempts policy method (some p)) transport
        (maximum_attempts policy method (some p)) (started (some (meanwhile b')))
        (maximum_attempts_pos (some p) h) refl)

  -- A call that the breaker refuses makes no attempt and leaves the breaker as it was.
  pub request_refused :
      (b : CircuitBreaker) {b' : CircuitBreaker} {e : CircuitOpenError}
      → acquire_permission (clock 0) b ≡ (err e, b')
      → call (some b) ≡ record {
        result = err (circuit_is_open e);
        outcome = circuit_open;
        state = started (some b);
      }
  unfolding request acquire_permission
  request_refused b {b'} {e} h = ground arith

  maximum_attempts_probe :
      (p : CircuitPermit)
      → (p.is_half_open_probe ≡ true) ⊎ (is_retryable_read method ≡ false)
      → maximum_attempts policy method (some p) ≡ 1
  unfolding maximum_attempts
  maximum_attempts_probe p h = ground arith

  -- With at least one read attempt configured, a call with a permit and a mutating method, and a call
  -- that is the half-open probe, is decided by its first
  -- attempt: its result is that attempt's, that attempt is what the breaker is told, nothing is
  -- repeated and nothing is slept.
  pub request_once :
      (b : CircuitBreaker) {b' : CircuitBreaker} {p : CircuitPermit}
      → 1 ≤ policy.read_max_attempts
      → acquire_permission (clock 0) b ≡ (ok p, b')
      → (p.is_half_open_probe ≡ true) ⊎ (is_retryable_read method ≡ false)
      → let answer = call (some b) in
        (answer.result ≡ verdict (transport 1))
        × (answer.state.circuit_breaker
            ≡ reported (some p) (clock 1) (transport 1) (some (meanwhile b')))
        × (length answer.state.retries ≡ 0)
        × (answer.state.sleeps ≡ [])
  request_once b {b'} {p} h e once =
      let (m, d) = request_decided b h e in
      first_only m (call (some b)) (omega (arith, d.in_range, maximum_attempts_probe p once)) d
    where
      first_only :
          (m : ℕ) (answer : Answer)
          → m ≡ 0
          → CallDecided (some p) m (started (some (meanwhile b'))) answer
          → (answer.result ≡ verdict (transport 1))
            × (answer.state.circuit_breaker
                ≡ reported (some p) (clock 1) (transport 1) (some (meanwhile b')))
            × (length answer.state.retries ≡ 0)
            × (answer.state.sleeps ≡ [])
      first_only zero answer _ d = (d.result, d.breaker, d.retries, d.sleeps)
      first_only (suc m) answer z d = absurd (omega arith)
