-- ===== src/Circuit/Invariant.antt =====
-- What holds of the circuit breaker between two calls, whatever the threads do.
use opsflow.Prelude.{ℕ, ◌≤◌, ◌<◌, ◌≡◌, ◌≢◌, none, List, [], ◌∷◌, ok, arith}
use opsflow.Circuit.{
  CircuitBreaker, CircuitPermit, closed, new, acquire_permission, record_success, record_failure,
  Call, acquire, succeed, fail, run,
}

-- The count is below the threshold while the circuit is closed, and is the threshold otherwise; a
-- circuit that is closed has no start of an outage, one that is not has one.
pub record IsValid (b : CircuitBreaker) : Type 0 where
  pub threshold_pos : 1 ≤ b.failure_threshold
  pub recovery_pos : 1 ≤ b.recovery_seconds
  pub closed_below : b.state ≡ closed → b.consecutive_failures < b.failure_threshold
  pub closed_no_start : b.state ≡ closed → b.opened_at ≡ none
  pub opened_full : b.state ≢ closed → b.consecutive_failures ≡ b.failure_threshold
  pub opened_start : b.state ≢ closed → b.opened_at ≢ none

pub new-IsValid :
    (threshold recovery : ℕ) {b : CircuitBreaker} → new threshold recovery ≡ ok b → IsValid b
unfolding new
new-IsValid threshold recovery h = ground arith

pub acquire_permission-IsValid :
    (now : ℕ) (b : CircuitBreaker) → IsValid b → IsValid (acquire_permission now b).1
unfolding acquire_permission
acquire_permission-IsValid now b v = ground arith

pub record_success-IsValid :
    (p : CircuitPermit) (b : CircuitBreaker) → IsValid b → IsValid (record_success p b)
unfolding record_success
record_success-IsValid p b v = ground arith

pub record_failure-IsValid :
    (p : CircuitPermit) (now : ℕ) (b : CircuitBreaker)
    → IsValid b
    → IsValid (record_failure p now b)
unfolding record_failure
record_failure-IsValid p now b v = ground arith

-- Any calls by any threads, with any permits, keep a valid breaker valid.
pub run-IsValid : (calls : List Call) (b : CircuitBreaker) → IsValid b → IsValid (run calls b).1
unfolding run
run-IsValid [] b v = v
run-IsValid (acquire now ∷ calls) b v =
    run-IsValid calls (acquire_permission now b).1 (acquire_permission-IsValid now b v)
run-IsValid (succeed p ∷ calls) b v =
    run-IsValid calls (record_success p b) (record_success-IsValid p b v)
run-IsValid (fail p now ∷ calls) b v =
    run-IsValid calls (record_failure p now b) (record_failure-IsValid p now b v)
