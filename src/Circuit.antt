-- ===== src/Circuit.antt =====
-- backend/app/core/circuit_breaker.py: the circuit breaker that guards calls to the Incident Service.
-- Times are whole nanoseconds, the resolution of `time.monotonic`. Each method runs under the
-- breaker's lock, so it is one step; a method takes the clock's reading as an argument.
pub mod Invariant
pub mod Probes
pub mod Recovery
use opsflow.Prelude.{
  ℕ, ◌+◌, Bool, true, false, not, Option, none, some, List, [], ◌∷◌, Result, ok, err, ltb, leb,
  ◌==◌, second, if◌then◌else◌,
}
use opsflow.Prelude.Int.{ℤ, pos, ◌-ℤ◌, ltb_ℤ, max_ℤ}

-- `open` is a reserved word.
pub data CircuitState : Type 0 where
  closed opened half_open : CircuitState

pub record CircuitPermit : Type 0 where
  pub generation : ℕ
  pub is_half_open_probe : Bool

pub record CircuitOpenError : Type 0 where
  pub retry_after_seconds : ℤ

pub data ValueError : Type 0 where
  bad_failure_threshold bad_recovery_seconds : ValueError

pub record CircuitBreaker : Type 0 where
  pub failure_threshold : ℕ
  pub recovery_seconds : ℕ
  pub state : CircuitState
  pub consecutive_failures : ℕ
  pub opened_at : Option ℕ
  pub generation : ℕ

-- `CircuitOpenError.__init__` clamps at zero.
circuit_open : ℤ → CircuitOpenError
circuit_open retry_after = record { retry_after_seconds = max_ℤ retry_after (pos 0) }

abbrev pub is_closed : CircuitState → Bool
is_closed closed = true
is_closed _ = false

abbrev pub is_half_open : CircuitState → Bool
is_half_open half_open = true
is_half_open _ = false

-- `CircuitBreaker.__init__`
unfoldable pub new : ℕ → ℕ → Result ValueError CircuitBreaker
new failure_threshold recovery_seconds =
    if ltb failure_threshold 1
    then err bad_failure_threshold
    else if leb recovery_seconds 0
    then err bad_recovery_seconds
    else ok (record {
      failure_threshold = failure_threshold;
      recovery_seconds = recovery_seconds;
      state = closed;
      consecutive_failures = 0;
      opened_at = none;
      generation = 0;
    })

-- The wait that is left at the time `now`; without a start of the outage it is the whole interval.
unfoldable pub remaining_seconds : ℕ → Option ℕ → ℕ → ℤ
remaining_seconds recovery none now = pos recovery
remaining_seconds recovery (some opened_at) now = pos recovery -ℤ (pos now -ℤ pos opened_at)

-- The last part of `acquire_permission`, in the open state.
try_probe : ℕ → CircuitBreaker → Result CircuitOpenError CircuitPermit × CircuitBreaker
unfolding circuit_open
try_probe now b =
    let remaining = remaining_seconds b.recovery_seconds b.opened_at now in
    if ltb_ℤ (pos 0) remaining then (err (circuit_open remaining), b) else (
      ok (record { generation = b.generation; is_half_open_probe = true }),
      record b { state = half_open },
    )

permission :
    CircuitState → ℕ → CircuitBreaker → Result CircuitOpenError CircuitPermit × CircuitBreaker
unfolding try_probe
permission closed now b = (ok (record { generation = b.generation; is_half_open_probe = false }), b)
permission half_open now b = (err (circuit_open (pos second)), b)
permission opened now b = try_probe now b

unfoldable pub acquire_permission :
    ℕ → CircuitBreaker → Result CircuitOpenError CircuitPermit × CircuitBreaker
unfolding permission
acquire_permission now b = permission b.state now b

unfoldable pub record_success : CircuitPermit → CircuitBreaker → CircuitBreaker
record_success permit b =
    if not (permit.generation == b.generation)
    then b
    else if permit.is_half_open_probe
    then (if not (is_half_open b.state) then b else record b {
      state = closed;
      consecutive_failures = 0;
      opened_at = none;
      generation = b.generation + 1;
    })
    else if is_closed b.state
    then record b { consecutive_failures = 0 }
    else b

unfoldable pub open_locked : ℕ → CircuitBreaker → CircuitBreaker
open_locked opened_at b = record b {
  state = opened;
  opened_at = some opened_at;
  consecutive_failures = b.failure_threshold;
  generation = b.generation + 1;
}

-- `now` is the reading that `_open_locked` is given.
unfoldable pub record_failure : CircuitPermit → ℕ → CircuitBreaker → CircuitBreaker
unfolding open_locked
record_failure permit now b =
    if not (permit.generation == b.generation)
    then b
    else if permit.is_half_open_probe
    then if is_half_open b.state then open_locked now b else b
    else if not (is_closed b.state)
    then b
    else let counted = record b { consecutive_failures = b.consecutive_failures + 1 } in
      if leb counted.failure_threshold counted.consecutive_failures
      then open_locked now counted
      else counted

-- One call of a method, by any thread. The lock puts the calls in a sequence.
pub data Call : Type 0 where
  acquire : ℕ → Call
  succeed : CircuitPermit → Call
  fail : CircuitPermit → ℕ → Call

abbrev pub granted : Result CircuitOpenError CircuitPermit → List CircuitPermit → List CircuitPermit
granted (ok permit) rest = permit ∷ rest
granted (err _) rest = rest

-- The breaker after the calls, and the permits that they were given, first to last.
unfoldable pub run : List Call → CircuitBreaker → List CircuitPermit × CircuitBreaker
run [] b = ([], b)
run (acquire now ∷ calls) b =
    let (answer, b') = acquire_permission now b in
    let (permits, b'') = run calls b' in (granted answer permits, b'')
run (succeed permit ∷ calls) b = run calls (record_success permit b)
run (fail permit now ∷ calls) b = run calls (record_failure permit now b)
