-- ===== src/Examples/GatewayRuns.antt =====
-- Runs of the gateway's requests, with a breaker and with a concrete transport.
use opsflow.Prelude.{
  ℕ, ◌+◌, ◌*◌, ◌≡◌, refl, false, Option, some, err, second, arith, if◌then◌else◌, ◌==◌,
}
use opsflow.Prelude.Int.{pos}
use opsflow.Circuit.{CircuitBreaker, CircuitPermit, acquire_permission}
use opsflow.Gateway.{
  get, post, Attempt, response, timeout, unexpected, other_exception, circuit_is_open, Policy,
  request, started,
}
use opsflow.Gateway.Settlement.{CallDecided, request_decided}
use opsflow.Gateway.Probe.{resolved, probing, probe_resolves, lost_probe_blocks}
use opsflow.Examples.CircuitRuns.{fresh, open_since_five}

abbrev policy : Policy
policy = record { read_max_attempts = 3; read_backoff_seconds = 1 }

-- The first attempt times out, the second is a 503, the third a 200.
abbrev flaky : ℕ → Attempt
flaky n = if n == 1 then timeout else if n == 2 then response 503 else response 200

abbrev accepted : ℕ → Attempt
accepted _ = response 201

abbrev broken : ℕ → Attempt
broken _ = unexpected

abbrev clock : ℕ → ℕ
clock n = (40 + n) * second

abbrev nobody : CircuitBreaker → CircuitBreaker
nobody b = b

abbrev permit : CircuitPermit
permit = record { generation = 0; is_half_open_probe = false }

request_decided_example :
    (m : ℕ) × CallDecided policy flaky clock nobody get
      (some permit)
      m
      (started (some fresh))
      (request policy flaky clock nobody get (some fresh))
unfolding acquire_permission
request_decided_example = request_decided policy flaky clock nobody get fresh (omega arith) refl

probe_resolves_example :
    (request policy accepted clock nobody get (some open_since_five)).state.circuit_breaker
    ≡ some (resolved (clock 1) (response 201) open_since_five)
probe_resolves_example =
    probe_resolves policy accepted clock nobody get (5 * second) open_since_five (omega arith) refl
      refl (omega arith) refl (ground arith)

abbrev stuck : Option CircuitBreaker
stuck = (request policy broken clock nobody get (some open_since_five)).state.circuit_breaker

-- A day later.
abbrev next_day : ℕ → ℕ
next_day n = (86400 + n) * second

lost_probe_blocks_example :
    ((request policy broken clock nobody get (some open_since_five)).result ≡ err other_exception)
    × ((request policy accepted next_day nobody post stuck).result
        ≡ err (circuit_is_open (record { retry_after_seconds = pos second })))
    × ((request policy accepted next_day nobody post stuck).state.circuit_breaker
        ≡ some (probing open_since_five))
lost_probe_blocks_example =
    lost_probe_blocks policy broken clock nobody get (5 * second) open_since_five (omega arith) refl
      refl (omega arith) refl refl policy accepted next_day nobody post
