-- ===== src/Gateway/Probe.antt =====
-- The half-open probe, from the call that is granted it to the state of the circuit after it.
use opsflow.Prelude.{
  second, ℕ, ◌+◌, ◌≤◌, ◌≡◌, ◌≢◌, refl, ◌∙◌, inl, Bool, true, false, none, some, err, ltb, arith,
  if◌then◌else◌,
}
use opsflow.Prelude.Int.{pos}
use opsflow.Circuit.{
  CircuitBreaker, CircuitPermit, closed, opened, half_open, record_success, record_failure,
}
use opsflow.Circuit.Recovery.{acquire_permission_half_open, probe_decides}
use opsflow.Gateway.{
  Method, Attempt, response, unexpected, circuit_is_open, other_exception, Policy, request,
}
use opsflow.Gateway.Retry.{reported}
use opsflow.Gateway.Settlement.{request_once, request_refused}

abbrev pub is_healthy : Attempt → Bool
is_healthy (response status) = ltb status 500
is_healthy _ = false

abbrev pub probe_of : CircuitBreaker → CircuitPermit
probe_of b = record { generation = b.generation; is_half_open_probe = true }

abbrev pub probing : CircuitBreaker → CircuitBreaker
probing b = record b { state = half_open }

-- The circuit after a probe that ended with the attempt `a` at the time `now`.
abbrev pub resolved : ℕ → Attempt → CircuitBreaker → CircuitBreaker
resolved now a b =
    if is_healthy a
    then record b {
      state = closed;
      consecutive_failures = 0;
      opened_at = none;
      generation = b.generation + 1;
    }
    else record b {
      state = opened;
      opened_at = some now;
      consecutive_failures = b.failure_threshold;
      generation = b.generation + 1;
    }

reported_probe :
    (now : ℕ) (a : Attempt) (b : CircuitBreaker)
    → a ≢ unexpected
    → reported (some (probe_of b)) now a (some (probing b)) ≡ some (resolved now a b)
unfolding record_success record_failure
reported_probe now (response status) b h = ground arith
reported_probe now unexpected b h = absurd (h refl)
reported_probe now _ b h = ground arith

module _ (policy : Policy) (transport : ℕ → Attempt) (clock : ℕ → ℕ)
    (meanwhile : CircuitBreaker → CircuitBreaker) (method : Method) (start : ℕ) where
  -- With at least one read attempt configured, an open circuit whose recovery time has passed, and
  -- whose probe no other thread disturbs, is half-open no longer after one call, whatever its method:
  -- a response below 500 closes it, and any other failure that the gateway knows opens it again from
  -- the time of that failure.
  pub probe_resolves :
      (b : CircuitBreaker)
      → 1 ≤ policy.read_max_attempts
      → b.state ≡ opened
      → b.opened_at ≡ some start
      → start + b.recovery_seconds ≤ clock 0
      → meanwhile (probing b) ≡ probing b
      → transport 1 ≢ unexpected
      → (request policy transport clock meanwhile method (some b)).state.circuit_breaker
        ≡ some (resolved (clock 1) (transport 1) b)
  probe_resolves b max s o over alone known =
      (request_once policy transport clock meanwhile method b max
        (probe_decides (clock 0) start 0 b s o over).0 (inl refl)).1
      ∙ rw alone (reported_probe (clock 1) (transport 1) b known)

  -- If that one call ends in an exception of another class, nobody reports the probe: the circuit
  -- is half-open, and from then on every call is refused, at any time, with any method, and leaves
  -- it half-open.
  pub lost_probe_blocks :
      (b : CircuitBreaker)
      → 1 ≤ policy.read_max_attempts
      → b.state ≡ opened
      → b.opened_at ≡ some start
      → start + b.recovery_seconds ≤ clock 0
      → meanwhile (probing b) ≡ probing b
      → transport 1 ≡ unexpected
      → (later : Policy) (transport' : ℕ → Attempt) (clock' : ℕ → ℕ)
        (meanwhile' : CircuitBreaker → CircuitBreaker) (method' : Method)
      → let answer = request policy transport clock meanwhile method (some b) in
        let next =
          request later transport' clock' meanwhile' method' answer.state.circuit_breaker in
        (answer.result ≡ err other_exception)
        × (next.result ≡ err (circuit_is_open (record { retry_after_seconds = pos second })))
        × (next.state.circuit_breaker ≡ some (probing b))
  lost_probe_blocks b max s o over alone lost later transport' clock' meanwhile' method' =
      let once =
        request_once policy transport clock meanwhile method b max
          (probe_decides (clock 0) start 0 b s o over).0 (inl refl) in
      let refused =
        request_refused later transport' clock' meanwhile' method' (probing b)
          (acquire_permission_half_open (clock' 0) (probing b) refl) in
      let stays : (request policy transport clock meanwhile method (some b)).state.circuit_breaker
          ≡ some (probing b) =
        once.1 ∙ rw (alone, lost) refl in
      (once.0 ∙ rw lost refl, rw (stays, refused) refl, rw (stays, refused) refl)
