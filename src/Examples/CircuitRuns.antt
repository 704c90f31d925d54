-- ===== src/Examples/CircuitRuns.antt =====
-- Runs of the circuit breaker: three failures open it, and it recovers after thirty seconds.
use opsflow.Prelude.{◌*◌, refl, true, false, none, some, List, [], ◌∷◌, second, arith}
use opsflow.Circuit.{
  CircuitBreaker, CircuitPermit, closed, opened, Call, acquire, succeed, fail, run,
}
use opsflow.Circuit.Invariant.{IsValid, run-IsValid}
use opsflow.Circuit.Probes.{Ascends, probe_generations, probes_ascend}

abbrev pub fresh : CircuitBreaker
fresh = record {
  failure_threshold = 3;
  recovery_seconds = 30 * second;
  state = closed;
  consecutive_failures = 0;
  opened_at = none;
  generation = 0;
}

abbrev pub open_since_five : CircuitBreaker
open_since_five = record fresh {
  state = opened;
  consecutive_failures = 3;
  opened_at = some (5 * second);
  generation = 1;
}

abbrev permit : CircuitPermit
permit = record { generation = 0; is_half_open_probe = false }

abbrev probe : CircuitPermit
probe = record { generation = 1; is_half_open_probe = true }

-- Three failures, a probe that fails, and a probe that succeeds.
abbrev outage : List Call
outage =
    acquire 0
    ∷ fail permit 1
    ∷ fail permit 2
    ∷ fail permit (5 * second)
    ∷ acquire (35 * second)
    ∷ fail probe (36 * second)
    ∷ acquire (70 * second)
    ∷ succeed (record probe { generation = 2 })
    ∷ []

fresh-IsValid : IsValid fresh
fresh-IsValid = record {
  threshold_pos = omega arith;
  recovery_pos = omega arith;
  closed_below = λ _. omega arith;
  closed_no_start = λ _. refl;
  opened_full = λ n. ground arith;
  opened_start = λ n. ground arith;
}

run-IsValid_example : IsValid (run outage fresh).1
run-IsValid_example = run-IsValid outage fresh fresh-IsValid

probes_ascend_example : Ascends 0 (probe_generations (run outage fresh).0)
probes_ascend_example = probes_ascend outage fresh
