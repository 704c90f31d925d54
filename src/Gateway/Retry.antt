-- ===== src/Gateway/Retry.antt =====
-- The retry loop of `_request`: which attempt decides the call, and what the ones before it record.
use Prim.Native.Nat.{◌^◌}
use opsflow.Prelude.{
  ℕ, zero, suc, ◌+◌, ◌-◌, ◌*◌, ◌≤◌, ◌<◌, ◌≡◌, ◌∙◌, sym, ap, ◌⊎◌, inl, inr, Bool, true, false,
  Bool-cases, Option, none, some, List, [], ◌∷◌, ◌++◌, Result, ok, err, leb, length, length-append,
  arith, if◌then◌else◌,
}
use mathlib.Core.List.{append-nil, append_assoc}
use opsflow.Circuit.{CircuitBreaker, CircuitPermit, record_success, record_failure}
use opsflow.Gateway.{
  Attempt, response, timeout, transport_error, identity_error, unexpected, Outcome, timed_out,
  transport_failed, RetryReason, after_timeout, after_transport_error, retryable_status,
  GatewayError, request_timed_out, service_unavailable, authentication_unavailable, other_exception,
  Policy, CallState, Answer, is_retryable_status, response_outcome, record_circuit_success,
  record_circuit_failure, record_dependency_attempt, sleep_before_retry, on_attempt, attempt_loop,
}

-- The attempts that the loop may repeat.
abbrev pub is_retryable : Attempt → Bool
is_retryable (response status) = is_retryable_status status
is_retryable timeout = true
is_retryable transport_error = true
is_retryable _ = false

-- What a call whose last attempt ended so returns or raises.
abbrev pub verdict : Attempt → Result GatewayError ℕ
verdict (response status) = ok status
verdict timeout = err request_timed_out
verdict transport_error = err service_unavailable
verdict identity_error = err authentication_unavailable
verdict unexpected = err other_exception

-- What the circuit breaker is told of such a call.
abbrev pub reported :
    Option CircuitPermit → ℕ → Attempt → Option CircuitBreaker → Option CircuitBreaker
reported none now a b = b
reported (some p) now a none = none
reported (some p) now (response status) (some b) =
    some (if leb 500 status then record_failure p now b else record_success p b)
reported (some p) now unexpected (some b) = some b
reported (some p) now a (some b) = some (record_failure p now b)

-- An attempt that is one too many, or is not to be repeated, ends the loop.
abbrev pub Decides : ℕ → ℕ → Attempt → Type 0
Decides maximum n a = (is_retryable a ≡ false) ⊎ (n ≡ maximum)

-- How the loop ends: the result, and the breaker that it leaves.
abbrev pub Ends : Result GatewayError ℕ → Option CircuitBreaker → Answer → Type 0
Ends r b answer = (answer.result ≡ r) × (answer.state.circuit_breaker ≡ b)

module _ (policy : Policy) (permit : Option CircuitPermit) (clock : ℕ → ℕ) (maximum : ℕ) where
  abbrev step : ℕ → (CallState → Answer) → Attempt → CallState → Answer
  step = on_attempt policy permit clock maximum

  on_attempt-Decides :
      (n : ℕ) (again : CallState → Answer) (a : Attempt) (s : CallState)
      → Decides maximum n a
      → Ends (verdict a) (reported permit (clock n) a s.circuit_breaker) (step n again a s)
  unfolding on_attempt record_circuit_success record_circuit_failure
  on_attempt-Decides n again (response status) s d = ground arith
  on_attempt-Decides n again timeout s d = ground arith
  on_attempt-Decides n again _ s d = ground arith

-- The sleep after attempt `n`, if there is one, and the sleeps after the `m` attempts from `n` on.
abbrev pub backoff : Policy → ℕ → List ℕ
backoff policy n =
    let delay = policy.read_backoff_seconds * 2 ^ (n - 1) in if leb delay 0 then [] else delay ∷ []

abbrev pub backoffs : Policy → ℕ → ℕ → List ℕ
backoffs policy n zero = []
backoffs policy n (suc m) = backoff policy n ++ backoffs policy (n + 1) m

abbrev reason : Attempt → RetryReason
reason (response _) = retryable_status
reason timeout = after_timeout
reason _ = after_transport_error

abbrev label : Attempt → Outcome
label (response status) = response_outcome status
label timeout = timed_out
label _ = transport_failed

-- The state in which the loop goes on after attempt `n`.
abbrev repeated : Policy → ℕ → Attempt → CallState → CallState
repeated policy n a s =
    sleep_before_retry policy (reason a) n (record_dependency_attempt (label a) s)

module _ (policy : Policy) (permit : Option CircuitPermit) (clock : ℕ → ℕ) (maximum : ℕ) where
  on_attempt_repeats :
      (n : ℕ) (again : CallState → Answer) (a : Attempt) (s : CallState)
      → is_retryable a ≡ true
      → n < maximum
      → on_attempt policy permit clock maximum n again a s ≡ again (repeated policy n a s)
  unfolding on_attempt
  on_attempt_repeats n again (response status) s r h = ground arith
  on_attempt_repeats n again timeout s r h = ground arith
  on_attempt_repeats n again _ s r h = ground arith

module _ (policy : Policy) (n : ℕ) (a : Attempt) (s : CallState) where
  breaker-repeated : (repeated policy n a s).circuit_breaker ≡ s.circuit_breaker
  unfolding sleep_before_retry
  breaker-repeated = ground arith

  retries-repeated : length (repeated policy n a s).retries ≡ length s.retries + 1
  unfolding sleep_before_retry
  retries-repeated = ground (arith, length-append s.retries (reason a ∷ []))

  sleeps-repeated : (repeated policy n a s).sleeps ≡ s.sleeps ++ backoff policy n
  unfolding sleep_before_retry
  sleeps-repeated = ground (arith, append-nil s.sleeps)

-- The loop from attempt `n` repeats `m` attempts and is decided by the next one.
pub record Decided (policy : Policy) (permit : Option CircuitPermit) (clock : ℕ → ℕ) (maximum : ℕ)
    (transport : ℕ → Attempt) (n m : ℕ) (s : CallState) (answer : Answer) : Type 0 where
  pub in_range : n + m ≤ maximum
  pub repeated_before : (i : ℕ) → i < m → is_retryable (transport (n + i)) ≡ true
  pub decides : Decides maximum (n + m) (transport (n + m))
  pub result : answer.result ≡ verdict (transport (n + m))
  pub breaker :
      answer.state.circuit_breaker
      ≡ reported permit (clock (n + m)) (transport (n + m)) s.circuit_breaker
  pub retries : length answer.state.retries ≡ length s.retries + m
  pub sleeps : answer.state.sleeps ≡ s.sleeps ++ backoffs policy n m

module _ (policy : Policy) (permit : Option CircuitPermit) (clock : ℕ → ℕ) (maximum : ℕ)
    (transport : ℕ → Attempt) where
  abbrev DecidedAt : (n m : ℕ) → CallState → Answer → Type 0
  DecidedAt = Decided policy permit clock maximum transport

  on_attempt_counts :
      (n : ℕ) (again : CallState → Answer) (a : Attempt) (s : CallState)
      → Decides maximum n a
      → let s' = (on_attempt policy permit clock maximum n again a s).state in
        (s'.retries ≡ s.retries) × (s'.sleeps ≡ s.sleeps)
  unfolding on_attempt record_circuit_success record_circuit_failure
  on_attempt_counts n again (response status) s d = ground arith
  on_attempt_counts n again timeout s d = ground arith
  on_attempt_counts n again _ s d = ground arith

  Decided-now :
      (n : ℕ) (again : CallState → Answer) (s : CallState)
      → n ≤ maximum
      → Decides maximum n (transport n)
      → DecidedAt n 0 s (on_attempt policy permit clock maximum n again (transport n) s)
  Decided-now n again s h d =
      let e : n + 0 ≡ n = omega arith in
      let ends = on_attempt-Decides policy permit clock maximum n again (transport n) s d in
      let counts = on_attempt_counts n again (transport n) s d in
      record {
        in_range = omega arith;
        repeated_before = λ i l. absurd (omega arith);
        decides = rw e d;
        result = rw e (ends.0);
        breaker = rw e (ends.1);
        retries = rw (counts.0) (omega arith);
        sleeps = counts.1 ∙ sym (append-nil s.sleeps);
      }

  repeated_earlier :
      (n m : ℕ)
      → is_retryable (transport n) ≡ true
      → ((i : ℕ) → i < m → is_retryable (transport (n + 1 + i)) ≡ true)
      → (i : ℕ) → i < suc m
      → is_retryable (transport (n + i)) ≡ true
  repeated_earlier n m first rest zero l = let e : n + 0 ≡ n = omega arith in rw e first
  repeated_earlier n m first rest (suc i) l =
      let e : n + suc i ≡ n + 1 + i = omega arith in rw e (rest i (omega arith))

  Decided-later :
      (n m : ℕ) (s : CallState) (answer : Answer)
      → is_retryable (transport n) ≡ true
      → DecidedAt (n + 1) m (repeated policy n (transport n) s) answer
      → DecidedAt n (suc m) s answer
  Decided-later n m s answer r d =
      let e : n + suc m ≡ n + 1 + m = omega arith in
      record {
        in_range = omega (arith, d.in_range);
        repeated_before = repeated_earlier n m r d.repeated_before;
        decides = rw e d.decides;
        result = rw e d.result;
        breaker = rw (e, ← breaker-repeated policy n (transport n) s) d.breaker;
        retries = omega (arith, d.retries, retries-repeated policy n (transport n) s);
        sleeps =
            d.sleeps
            ∙ ap (λ (l : List ℕ). l ++ backoffs policy (n + 1) m)
                (sleeps-repeated policy n (transport n) s)
            ∙ append_assoc s.sleeps (backoff policy n) (backoffs policy (n + 1) m);
      }

  -- The loop that has `suc left` attempts left at attempt `n` is decided by one of them.
  attempt_loop-Decided_suc :
      (left n : ℕ) (s : CallState)
      → n + left ≡ maximum
      → (m : ℕ) × DecidedAt n m s
          (attempt_loop policy permit clock maximum transport (suc left) n s)
  unfolding attempt_loop
  attempt_loop-Decided_suc zero n s h = (0, Decided-now n _ s (omega arith) (inr (omega arith)))
  attempt_loop-Decided_suc (suc left) n s h = elim (Bool-cases (is_retryable (transport n))) [
    | inl r ↦
        let (m, d) =
          attempt_loop-Decided_suc left (n + 1) (repeated policy n (transport n) s) (omega arith) in
        (
          suc m,
          rw (on_attempt_repeats policy permit clock maximum n _ (transport n) s r (omega arith))
              (Decided-later n m s _ r d),
        )
    | inr f ↦ (0, Decided-now n _ s (omega arith) (inl f))
  ]

  -- All attempts from the first on.
  pub attempt_loop-Decided :
      (count : ℕ) (s : CallState)
      → 1 ≤ count
      → count ≡ maximum
      → (m : ℕ) × DecidedAt 1 m s (attempt_loop policy permit clock maximum transport count 1 s)
  attempt_loop-Decided zero s l h = absurd (omega arith)
  attempt_loop-Decided (suc left) s l h = attempt_loop-Decided_suc left 1 s (omega arith)
