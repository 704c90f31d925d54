-- ===== src/Gateway.antt =====
-- backend/app/gateways/http_incident_gateway.py: `HttpIncidentGateway._request`, the retry loop
-- around the HTTP client, and its use of the circuit breaker.
-- What the client and the token provider do in each attempt, the readings of the clock, and what
-- other threads do to the shared breaker during the call are arguments. The metrics counters are
-- kept as lists, the sleeps as the list of their lengths; headers and bodies are not modelled.
pub mod Retry
pub mod Settlement
pub mod Probe
pub mod Remote
use Prim.Native.Nat.{◌^◌}
use opsflow.Prelude.{
  ℕ, zero, suc, ◌+◌, ◌-◌, ◌*◌, Bool, true, false, ◌&&◌, ◌||◌, Option, none, some, List, [], ◌∷◌,
  ◌++◌, Result, ok, err, ltb, leb, ◌==◌, if◌then◌else◌,
}
use opsflow.Circuit.{
  CircuitBreaker, CircuitPermit, CircuitOpenError, acquire_permission, record_success,
  record_failure,
}

pub data Method : Type 0 where
  get head options post patch delete : Method

-- `_RETRYABLE_READ_METHODS`
abbrev pub is_retryable_read : Method → Bool
is_retryable_read get = true
is_retryable_read head = true
is_retryable_read options = true
is_retryable_read _ = false

-- `_RETRYABLE_RESPONSE_STATUSES`
abbrev pub is_retryable_status : ℕ → Bool
is_retryable_status status = status == 502 || (status == 503 || status == 504)

-- How `_create_service_authorization` and `client.request` end in one attempt: a response with its
-- status, `httpx.TimeoutException`, another `httpx.RequestError`, a `ServiceIdentityError`, or an
-- exception of any other class.
pub data Attempt : Type 0 where
  response : ℕ → Attempt
  timeout transport_error identity_error unexpected : Attempt

-- The labels of `attempt_outcome` and `operation_outcome`.
pub data Outcome : Type 0 where
  status_2xx status_3xx status_4xx status_5xx : Outcome
  timed_out transport_failed authentication_error circuit_open unexpected_error : Outcome

pub data RetryReason : Type 0 where
  after_timeout after_transport_error retryable_status : RetryReason

-- The exceptions that leave `_request`.
pub data GatewayError : Type 0 where
  request_timed_out service_unavailable authentication_unavailable : GatewayError
  circuit_is_open : CircuitOpenError → GatewayError
  other_exception retry_loop_exited : GatewayError

pub record Policy : Type 0 where
  pub read_max_attempts : ℕ
  pub read_backoff_seconds : ℕ

-- The shared breaker, if one is set, and what the call has recorded.
pub record CallState : Type 0 where
  pub circuit_breaker : Option CircuitBreaker
  pub attempts : List Outcome
  pub retries : List RetryReason
  pub sleeps : List ℕ

pub record Answer : Type 0 where
  pub result : Result GatewayError ℕ
  pub outcome : Outcome
  pub state : CallState

pub response_outcome : ℕ → Outcome
response_outcome status =
    if ltb status 300
    then status_2xx
    else if ltb status 400
    then status_3xx
    else if ltb status 500
    then status_4xx
    else status_5xx

unfoldable pub record_circuit_success : Option CircuitPermit → CallState → CallState
record_circuit_success none s = s
record_circuit_success (some permit) s = record s {
  circuit_breaker = elim s.circuit_breaker [
    | none ↦ none
    | some b ↦ some (record_success permit b)
  ];
}

unfoldable pub record_circuit_failure : Option CircuitPermit → ℕ → CallState → CallState
record_circuit_failure none now s = s
record_circuit_failure (some permit) now s = record s {
  circuit_breaker = elim s.circuit_breaker [
    | none ↦ none
    | some b ↦ some (record_failure permit now b)
  ];
}

abbrev pub record_dependency_attempt : Outcome → CallState → CallState
record_dependency_attempt outcome s = record s { attempts = s.attempts ++ outcome ∷ [] }

-- `_record_dependency_retry` and then `_sleep_before_retry`
unfoldable pub sleep_before_retry : Policy → RetryReason → ℕ → CallState → CallState
sleep_before_retry policy reason completed_attempts s =
    let delay = policy.read_backoff_seconds * 2 ^ (completed_attempts - 1) in
    let noted = record s { retries = s.retries ++ reason ∷ [] } in
    if leb delay 0 then noted else record noted { sleeps = s.sleeps ++ delay ∷ [] }

module _ (policy : Policy) (permit : Option CircuitPermit) (clock : ℕ → ℕ) (maximum : ℕ) where
  -- The body of the loop for attempt `n`; `again` is the rest of the loop.
  unfoldable pub on_attempt : ℕ → (CallState → Answer) → Attempt → CallState → Answer
  unfolding response_outcome
  on_attempt n again timeout s =
      let noted = record_dependency_attempt timed_out s in
      if leb maximum n
      then record {
        result = err request_timed_out;
        outcome = timed_out;
        state = record_circuit_failure permit (clock n) noted;
      }
      else again (sleep_before_retry policy after_timeout n noted)
  on_attempt n again transport_error s =
      let noted = record_dependency_attempt transport_failed s in
      if leb maximum n
      then record {
        result = err service_unavailable;
        outcome = transport_failed;
        state = record_circuit_failure permit (clock n) noted;
      }
      else again (sleep_before_retry policy after_transport_error n noted)
  on_attempt n again identity_error s = record {
    result = err authentication_unavailable;
    outcome = authentication_error;
    state = record_circuit_failure permit (clock n) s;
  }
  on_attempt n again unexpected s = record {
    result = err other_exception;
    outcome = unexpected_error;
    state = s;
  }
  on_attempt n again (response status) s =
      let noted = record_dependency_attempt (response_outcome status) s in
      if is_retryable_status status && ltb n maximum
      then again (sleep_before_retry policy retryable_status n noted)
      else record {
        result = ok status;
        outcome = response_outcome status;
        state =
            if leb 500 status
            then record_circuit_failure permit (clock n) noted
            else record_circuit_success permit noted;
      }

  -- `for attempt_number in range(1, maximum_attempts + 1)`: the attempts that are left, and the
  -- number of the next one.
  unfoldable pub attempt_loop : (ℕ → Attempt) → ℕ → ℕ → CallState → Answer
  attempt_loop transport zero n s = record {
    result = err retry_loop_exited;
    outcome = unexpected_error;
    state = s;
  }
  attempt_loop transport (suc left) n s =
      on_attempt n (attempt_loop transport left (n + 1)) (transport n) s

abbrev pub is_probe : Option CircuitPermit → Bool
is_probe none = false
is_probe (some p) = p.is_half_open_probe

-- `maximum_attempts`: one for a mutation, and one for a half-open probe.
unfoldable pub maximum_attempts : Policy → Method → Option CircuitPermit → ℕ
maximum_attempts policy method permit =
    if is_probe permit then 1 else if is_retryable_read method then policy.read_max_attempts else 1

abbrev pub started : Option CircuitBreaker → CallState
started b = record { circuit_breaker = b; attempts = []; retries = []; sleeps = [] }

module _ (policy : Policy) (transport : ℕ → Attempt) (clock : ℕ → ℕ)
    (meanwhile : CircuitBreaker → CircuitBreaker) (method : Method) where
  -- The call after a permit was granted.
  unfoldable pub perform : Option CircuitPermit → CallState → Answer
  perform permit s =
      let maximum = maximum_attempts policy method permit in
      attempt_loop policy permit clock maximum transport maximum 1 s

  -- `meanwhile` is what other threads do to the breaker before this call reports to it.
  unfoldable pub admitted : Result CircuitOpenError CircuitPermit × CircuitBreaker → Answer
  admitted (err e, b) = record {
    result = err (circuit_is_open e);
    outcome = circuit_open;
    state = started (some b);
  }
  admitted (ok permit, b) = perform (some permit) (started (some (meanwhile b)))

  -- `_request`; `clock 0` is the reading of `acquire_permission`.
  unfoldable pub request : Option CircuitBreaker → Answer
  unfolding perform admitted
  request none = perform none (started none)
  request (some b) = admitted (acquire_permission (clock 0) b)
