-- ===== src/Circuit/Probes.antt =====
-- Permits and generations of the circuit breaker, over any sequence of calls.
use opsflow.Prelude.{ℕ, suc, ◌≤◌, ◌<◌, ◌≡◌, List, [], ◌∷◌, ok, arith, if◌then◌else◌}
use opsflow.Circuit.{
  CircuitBreaker, CircuitPermit, is_half_open, acquire_permission, record_success, record_failure,
  Call, acquire, succeed, fail, granted, run,
}

-- The generations of the half-open probes among some permits.
abbrev pub probe_generations : List CircuitPermit → List ℕ
probe_generations [] = []
probe_generations (p ∷ ps) =
    let rest = probe_generations ps in if p.is_half_open_probe then p.generation ∷ rest else rest

-- Each number is at least `k` and greater than the one before it.
abbrev pub Ascends : ℕ → List ℕ → Type 0
Ascends k [] = Unit
Ascends k (g ∷ gs) = (k ≤ g) × Ascends (suc g) gs

Ascends-le : (j k : ℕ) (gs : List ℕ) → j ≤ k → Ascends k gs → Ascends j gs
Ascends-le j k [] h a = a
Ascends-le j k (g ∷ gs) h a = (omega arith, a.1)

-- The least generation that a later probe can have.
next_probe : CircuitBreaker → ℕ
next_probe b = if is_half_open b.state then suc b.generation else b.generation

next_probe-record_success :
    (p : CircuitPermit) (b : CircuitBreaker) → next_probe b ≤ next_probe (record_success p b)
unfolding record_success next_probe
next_probe-record_success p b = ground arith

next_probe-record_failure :
    (p : CircuitPermit) (now : ℕ) (b : CircuitBreaker)
    → next_probe b ≤ next_probe (record_failure p now b)
unfolding record_failure next_probe
next_probe-record_failure p now b = ground arith

-- A granted probe uses up its generation.
Ascends-granted :
    (now : ℕ) (b : CircuitBreaker) (ps : List CircuitPermit)
    → Ascends (next_probe (acquire_permission now b).1) (probe_generations ps)
    → Ascends (next_probe b) (probe_generations (granted (acquire_permission now b).0 ps))
unfolding acquire_permission next_probe
Ascends-granted now b ps h = ground arith

Ascends-run :
    (calls : List Call) (b : CircuitBreaker)
    → Ascends (next_probe b) (probe_generations (run calls b).0)
unfolding run
Ascends-run [] b = tt
Ascends-run (acquire now ∷ calls) b =
    Ascends-granted now b (run calls (acquire_permission now b).1).0
      (Ascends-run calls (acquire_permission now b).1)
Ascends-run (succeed p ∷ calls) b =
    Ascends-le _ _ _ (next_probe-record_success p b) (Ascends-run calls (record_success p b))
Ascends-run (fail p now ∷ calls) b =
    Ascends-le _ _ _ (next_probe-record_failure p now b)
      (Ascends-run calls (record_failure p now b))

generation-acquire_permission :
    (now : ℕ) (b : CircuitBreaker) → (acquire_permission now b).1.generation ≡ b.generation
unfolding acquire_permission
generation-acquire_permission now b = ground arith

-- The generations of the probes that any calls are granted are all different: they ascend strictly
-- in the order of the grants, from the generation that the breaker has at the start.
pub probes_ascend :
    (calls : List Call) (b : CircuitBreaker)
    → Ascends b.generation (probe_generations (run calls b).0)
probes_ascend calls b =
    Ascends-le b.generation (next_probe b) (probe_generations (run calls b).0)
      (unfold next_probe in ground arith) (Ascends-run calls b)

generation-record_success :
    (p : CircuitPermit) (b : CircuitBreaker) → b.generation ≤ (record_success p b).generation
unfolding record_success
generation-record_success p b = ground arith

generation-record_failure :
    (p : CircuitPermit) (now : ℕ) (b : CircuitBreaker)
    → b.generation ≤ (record_failure p now b).generation
unfolding record_failure
generation-record_failure p now b = ground arith

pub generation-run :
    (calls : List Call) (b : CircuitBreaker) → b.generation ≤ (run calls b).1.generation
unfolding run
generation-run [] b = omega arith
generation-run (acquire now ∷ calls) b =
    omega (
      arith,
      generation-acquire_permission now b,
      generation-run calls (acquire_permission now b).1,
    )
generation-run (succeed p ∷ calls) b =
    omega (arith, generation-record_success p b, generation-run calls (record_success p b))
generation-run (fail p now ∷ calls) b =
    omega (arith, generation-record_failure p now b, generation-run calls (record_failure p now b))

generation_of_permit :
    (now : ℕ) (b : CircuitBreaker) (p : CircuitPermit)
    → (acquire_permission now b).0 ≡ ok p
    → p.generation ≡ b.generation
unfolding acquire_permission
generation_of_permit now b p h = ground arith

-- A permit that was granted before the circuit opened or closed again reports in vain: once the
-- generation has moved, neither its success nor its failure changes the breaker.
pub stale_permit_ignored :
    (now later : ℕ) (calls : List Call) (b : CircuitBreaker) (p : CircuitPermit)
    → (acquire_permission now b).0 ≡ ok p
    → b.generation < (run calls (acquire_permission now b).1).1.generation
    → let b' = (run calls (acquire_permission now b).1).1 in
      (record_success p b' ≡ b') × (record_failure p later b' ≡ b')
unfolding record_success record_failure
stale_permit_ignored now later calls b p h moved =
    (ground (arith, generation_of_permit now b p h), ground (arith, generation_of_permit now b p h))
