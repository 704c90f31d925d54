-- ===== src/Circuit/Recovery.antt =====
-- Opening at the threshold, rejecting until the recovery time, and the probe that decides.
use opsflow.Prelude.{
  second, ℕ, ◌+◌, ◌-◌, ◌≤◌, ◌<◌, ◌≡◌, refl, true, false, none, some, List, [], ◌∷◌, ◌++◌, ok, err,
  length, ◌∙◌, ap, arith,
}
use opsflow.Prelude.Int.{pos, ◌-ℤ◌, ltb_ℤ}
use opsflow.Circuit.{
  CircuitBreaker, CircuitPermit, succeed, closed, opened, half_open, remaining_seconds,
  acquire_permission, record_success, record_failure, Call, acquire, fail, run,
}

abbrev pub failures : CircuitPermit → List ℕ → List Call
failures p [] = []
failures p (now ∷ times) = fail p now ∷ failures p times

-- The permit of an ordinary call of the closed circuit.
abbrev pub ordinary : CircuitBreaker → CircuitPermit
ordinary b = record { generation = b.generation; is_half_open_probe = false }

record_failure_below :
    (now : ℕ) (b : CircuitBreaker)
    → b.state ≡ closed
    → b.consecutive_failures + 1 < b.failure_threshold
    → record_failure (ordinary b) now b
      ≡ record b { consecutive_failures = b.consecutive_failures + 1 }
unfolding record_failure
record_failure_below now b c h = ground arith

record_failure_reach :
    (now : ℕ) (b : CircuitBreaker)
    → b.state ≡ closed
    → b.consecutive_failures + 1 ≡ b.failure_threshold
    → record_failure (ordinary b) now b ≡ record b {
      state = opened;
      opened_at = some now;
      consecutive_failures = b.failure_threshold;
      generation = b.generation + 1;
    }
unfolding record_failure
record_failure_reach now b c h = ground arith

run-failures_below :
    (times : List ℕ) (b : CircuitBreaker)
    → b.state ≡ closed
    → b.consecutive_failures + length times < b.failure_threshold
    → run (failures (ordinary b) times) b
      ≡ ([], record b { consecutive_failures = b.consecutive_failures + length times })
unfolding run
run-failures_below [] b c h = ground arith
run-failures_below (now ∷ times) b c h =
    rw (record_failure_below now b c (omega arith), run)
      (run-failures_below times (record b { consecutive_failures = b.consecutive_failures + 1 }) c
          (omega arith)
        ∙ ground arith)

run-append :
    (xs ys : List Call) (b : CircuitBreaker) → (run (xs ++ ys) b).1 ≡ (run ys (run xs b).1).1
unfolding run
run-append [] ys b = refl
run-append (acquire now ∷ xs) ys b = run-append xs ys (acquire_permission now b).1
run-append (succeed p ∷ xs) ys b = run-append xs ys (record_success p b)
run-append (fail p now ∷ xs) ys b = run-append xs ys (record_failure p now b)

-- Consecutive failures of calls that the closed circuit let through only count while they stay
-- below the threshold; the one that reaches the threshold opens the circuit at its own time, and
-- moves the generation on.
pub failures_open :
    (times : List ℕ) (now : ℕ) (b : CircuitBreaker)
    → b.state ≡ closed
    → b.consecutive_failures + length times + 1 ≡ b.failure_threshold
    → ((run (failures (ordinary b) times) b).1
        ≡ record b { consecutive_failures = b.consecutive_failures + length times })
      × ((run (failures (ordinary b) times ++ fail (ordinary b) now ∷ []) b).1 ≡ record b {
        state = opened;
        opened_at = some now;
        consecutive_failures = b.failure_threshold;
        generation = b.generation + 1;
      })
failures_open times now b c h =
    let below =
      ap (λ (r : List CircuitPermit × CircuitBreaker). r.1)
        (run-failures_below times b c (omega arith)) in
    (
      below,
      rw (run-append (failures (ordinary b) times) (fail (ordinary b) now ∷ []) b, below)
          (unfold run in
            record_failure_reach now
              (record b { consecutive_failures = b.consecutive_failures + length times }) c h),
    )

remaining_seconds_open :
    (recovery start now : ℕ)
    → now < start + recovery
    → remaining_seconds recovery (some start) now ≡ pos (start + recovery - now)
unfolding remaining_seconds ◌-ℤ◌
remaining_seconds_open recovery start now h = ground arith

remaining_seconds_over :
    (recovery start now : ℕ)
    → start + recovery ≤ now
    → ltb_ℤ (pos 0) (remaining_seconds recovery (some start) now) ≡ false
unfolding remaining_seconds ◌-ℤ◌
remaining_seconds_over recovery start now h = ground arith

-- While the circuit is open and the recovery time has not passed, every call is refused with the
-- time that is left, and the breaker stays as it is.
pub acquire_permission_open :
    (now start : ℕ) (b : CircuitBreaker)
    → b.state ≡ opened
    → b.opened_at ≡ some start
    → now < start + b.recovery_seconds
    → acquire_permission now b
      ≡ (err (record { retry_after_seconds = pos (start + b.recovery_seconds - now) }), b)
unfolding acquire_permission
acquire_permission_open now start b s o h =
    ground (arith, remaining_seconds_open b.recovery_seconds start now h)

-- Once the recovery time has passed, a call is the probe; no second one is let through while it
-- runs; its success closes the circuit with no failures counted, and its failure opens the circuit
-- anew from the time of that failure. Both move the generation on.
pub probe_decides :
    (now start later : ℕ) (b : CircuitBreaker)
    → b.state ≡ opened
    → b.opened_at ≡ some start
    → start + b.recovery_seconds ≤ now
    → let p : CircuitPermit = record { generation = b.generation; is_half_open_probe = true } in
      let probing : CircuitBreaker = record b { state = half_open } in
      (acquire_permission now b ≡ (ok p, probing))
      × (acquire_permission later probing
          ≡ (err (record { retry_after_seconds = pos second }), probing))
      × (record_success p probing ≡ record b {
        state = closed;
        consecutive_failures = 0;
        opened_at = none;
        generation = b.generation + 1;
      })
      × (record_failure p later probing ≡ record b {
        opened_at = some later;
        consecutive_failures = b.failure_threshold;
        generation = b.generation + 1;
      })
unfolding acquire_permission record_success record_failure
probe_decides now start later b s o h = (
  ground (arith, remaining_seconds_over b.recovery_seconds start now h),
  ground arith,
  ground arith,
  ground arith,
)

pub acquire_permission_half_open :
    (now : ℕ) (b : CircuitBreaker)
    → b.state ≡ half_open
    → acquire_permission now b ≡ (err (record { retry_after_seconds = pos second }), b)
unfolding acquire_permission
acquire_permission_half_open now b s = ground arith

abbrev pub acquires : List ℕ → List Call
acquires [] = []
acquires (now ∷ times) = acquire now ∷ acquires times

-- A half-open circuit whose probe is never reported lets no call through at any time.
pub half_open_waits :
    (times : List ℕ) (b : CircuitBreaker) → b.state ≡ half_open → run (acquires times) b ≡ ([], b)
unfolding run
half_open_waits [] b s = refl
half_open_waits (now ∷ times) b s =
    rw (acquire_permission_half_open now b s, run) (rw (half_open_waits times b s))
